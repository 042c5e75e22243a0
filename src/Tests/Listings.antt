-- ===== src/Tests/Listings.antt =====
-- The theorems on listings at concrete data.
use uza_mobility_bn.Base.{ℕ, ◌≡◌, ◌↔◌, ◌⊎◌, refl, some, []}
use uza_mobility_bn.Schema.Catalog.{ListingStatus, ListingInventoryStage}
use uza_mobility_bn.Schema.World.{World}
use uza_mobility_bn.Api.{ok}
use uza_mobility_bn.Listings.Inventory.{
  next_inventory_stage, previous_inventory_stage, assert_inventory_stage_transition,
}
use uza_mobility_bn.Listings.Inventory.Neighbours.{moves_to_neighbours}
use uza_mobility_bn.Listings.Moderation.Paths.{
  IsDated, begin, call, approve, publish, run_moderation, Moderated, moderation-Chain,
}
use uza_mobility_bn.Tests.Natural.{natural, natural_laws}
use uza_mobility_bn.Tests.Memory.{memory, memory_laws}
use uza_mobility_bn.Tests.Data.{world, car, context}

-- A listing under review.
abbrev reviewed : World
reviewed = world ListingStatus.pending_review [] [] [] []

car-IsDated : IsDated (car ListingStatus.pending_review)
car-IsDated e = refl

moderation-Chain_example :
    Moderated
      (run_moderation (publish 0 7 context) (run_moderation (approve 0 7 context) reviewed))
      0
      (car ListingStatus.pending_review)
moderation-Chain_example =
    moderation-Chain reviewed 0 (car ListingStatus.pending_review) refl car-IsDated
      (call (call begin (approve 0 7 context)) (publish 0 7 context))

moves_to_neighbours_example :
    ((next_inventory_stage ListingInventoryStage.in_transit ≡ some ListingInventoryStage.at_port)
      ↔ (previous_inventory_stage ListingInventoryStage.at_port
          ≡ some ListingInventoryStage.in_transit))
    × ((assert_inventory_stage_transition {S = ℕ} ListingInventoryStage.in_transit
            ListingInventoryStage.at_port 5
          ≡ (ok tt, 5))
        ↔ ((next_inventory_stage ListingInventoryStage.in_transit
              ≡ some ListingInventoryStage.at_port)
            ⊎ (previous_inventory_stage ListingInventoryStage.in_transit
                ≡ some ListingInventoryStage.at_port)))
moves_to_neighbours_example =
    moves_to_neighbours 5 ListingInventoryStage.in_transit ListingInventoryStage.at_port
