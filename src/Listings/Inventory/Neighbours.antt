-- ===== src/Listings/Inventory/Neighbours.antt =====
-- The stages of the inventory stand in a line, and a listing moves to a neighbour only.
use uza_mobility_bn.Base.{◌≡◌, ◌↔◌, ◌⊎◌, some, arith}
use uza_mobility_bn.Schema.Catalog.{ListingInventoryStage, listing_inventory_stage_enum}
use uza_mobility_bn.Api.{ok}
use uza_mobility_bn.Listings.Inventory.{
  previous_inventory_stage, next_inventory_stage, assert_inventory_stage_transition,
}

next-previous :
    (s t : ListingInventoryStage)
    → (next_inventory_stage s ≡ some t) ↔ (previous_inventory_stage t ≡ some s)
unfolding next_inventory_stage previous_inventory_stage
next-previous ListingInventoryStage.china_unpaid t = (ground arith, ground arith)
next-previous ListingInventoryStage.in_transit t = (ground arith, ground arith)
next-previous ListingInventoryStage.at_port t = (ground arith, ground arith)
next-previous ListingInventoryStage.kigali_stock t = (ground arith, ground arith)

passes_iff_neighbour :
    {S : Type 0} (w : S) (s t : ListingInventoryStage)
    → (assert_inventory_stage_transition s t w ≡ (ok tt, w))
      ↔ ((next_inventory_stage s ≡ some t) ⊎ (previous_inventory_stage s ≡ some t))
unfolding assert_inventory_stage_transition next_inventory_stage previous_inventory_stage
passes_iff_neighbour w ListingInventoryStage.china_unpaid t = (ground arith, ground arith)
passes_iff_neighbour w ListingInventoryStage.in_transit t = (ground arith, ground arith)
passes_iff_neighbour w ListingInventoryStage.at_port t = (ground arith, ground arith)
passes_iff_neighbour w ListingInventoryStage.kigali_stock t = (ground arith, ground arith)

-- The stage behind `s` is `t` exactly if the stage before `t` is `s`; and the check of a move lets it
-- pass exactly if the goal is the stage behind or the stage before.
pub moves_to_neighbours :
    {S : Type 0} (w : S) (s t : ListingInventoryStage)
    → ((next_inventory_stage s ≡ some t) ↔ (previous_inventory_stage t ≡ some s))
      × ((assert_inventory_stage_transition s t w ≡ (ok tt, w))
          ↔ ((next_inventory_stage s ≡ some t) ⊎ (previous_inventory_stage s ≡ some t)))
moves_to_neighbours w s t = (next-previous s t, passes_iff_neighbour w s t)
