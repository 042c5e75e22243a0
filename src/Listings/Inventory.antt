-- ===== src/Listings/Inventory.antt =====
-- src/modules/listings/listing-inventory.util.ts: from China to the stock in Kigali.
pub mod Neighbours
use uza_mobility_bn.Base.{
  ℕ, suc, ◌+◌, ◌-◌, Bool, true, false, Option, none, some, String, List, [], ◌∷◌, ◌==◌, ◌||◌, not,
  if◌then◌else◌, leb, length, get_elem?,
}
use uza_mobility_bn.Base.Text.{◌===◌, ◌<>◌, name_of}
use uza_mobility_bn.Api.{Action, bad_request, ◌>>=◌, ◌>>◌, throw_if}
use uza_mobility_bn.Schema.Catalog.{SellerType, ListingInventoryStage, listing_inventory_stage_enum}

-- `INVENTORY_STAGE_LABELS`
pub inventory_stage_public_label : ListingInventoryStage → String
inventory_stage_public_label ListingInventoryStage.china_unpaid = "China"
inventory_stage_public_label ListingInventoryStage.in_transit = "In transit"
inventory_stage_public_label ListingInventoryStage.at_port = "At port"
inventory_stage_public_label ListingInventoryStage.kigali_stock = "Kigali stock"

unfoldable pub resolve_default_inventory_stage : SellerType → ListingInventoryStage
resolve_default_inventory_stage SellerType.uza_rwanda_stock = ListingInventoryStage.kigali_stock
resolve_default_inventory_stage SellerType.uza_china_sourcing = ListingInventoryStage.china_unpaid
resolve_default_inventory_stage SellerType.local_seller = ListingInventoryStage.kigali_stock
resolve_default_inventory_stage SellerType.international_seller = ListingInventoryStage.china_unpaid

abbrev pub stage_order : List ListingInventoryStage
stage_order =
    ListingInventoryStage.china_unpaid ∷ ListingInventoryStage.in_transit
    ∷ ListingInventoryStage.at_port ∷ ListingInventoryStage.kigali_stock ∷ []

-- `STAGE_ORDER.indexOf(stage)`, where every stage occurs
abbrev index_from : ℕ → List ListingInventoryStage → ListingInventoryStage → Option ℕ
index_from k [] stage = none
index_from k (x ∷ xs) stage =
    let rest = index_from (suc k) xs stage in if x === stage then some k else rest

abbrev one_apart : Option ℕ → Option ℕ → Bool
one_apart (some from) (some to) = to == from + 1 || from == to + 1
one_apart _ _ = false

-- `previousInventoryStage`
previous_at : Option ℕ → Option ListingInventoryStage
previous_at none = none
previous_at (some index) = if leb index 0 then none else get_elem? stage_order (index - 1)

unfoldable pub previous_inventory_stage : ListingInventoryStage → Option ListingInventoryStage
unfolding previous_at
previous_inventory_stage stage = previous_at (index_from 0 stage_order stage)

-- `nextInventoryStage`
next_at : Option ℕ → Option ListingInventoryStage
next_at none = none
next_at (some index) =
    if leb (length stage_order - 1) index then none else get_elem? stage_order (index + 1)

unfoldable pub next_inventory_stage : ListingInventoryStage → Option ListingInventoryStage
unfolding next_at
next_inventory_stage stage = next_at (index_from 0 stage_order stage)

unfoldable pub assert_inventory_stage_transition :
    {S : Type 0} → ListingInventoryStage → ListingInventoryStage → Action S (Unit {0})
assert_inventory_stage_transition from to = do
  throw_if (from === to) (bad_request "Listing is already at this inventory stage")
  throw_if (not (one_apart (index_from 0 stage_order from) (index_from 0 stage_order to))) (
      bad_request (
        "Cannot move inventory from "
        <> name_of from
        <> " to "
        <> name_of to
        <> ". Move one stage at a time."))
