-- ===== src/Orders/Fulfillment/Outcome.antt =====
-- What the calls on shipments do to the table of orders.
use uza_mobility_bn.Base.{
  ℕ, ◌≡◌, refl, Option, some, String, arith, Option-cases, inl, inr, ◌⊎◌, ◌∷◌, List, any, ◌==◌,
}
use uza_mobility_bn.Js.{Js}
use uza_mobility_bn.Db.{Prisma}
use uza_mobility_bn.Schema.Rows.{Order}
use uza_mobility_bn.Schema.World.{World}
use uza_mobility_bn.Api.{ok}
use uza_mobility_bn.Platform.Audit.{RequestAuditContext}
use uza_mobility_bn.Orders.Fulfillment.{
  UpsertShipmentDto, AssignOrderFulfillmentDto, upsert_shipment, assign_fulfillment,
  notify_port_arrival,
}

module _ ⦃N : Js⦄ where
  open N use {to_upper, trim}

  abbrev pub with_shipment : ℕ → Order → Order
  with_shipment shipment_id order = record order { shipment_id = some shipment_id }

  abbrev pub fulfilled : AssignOrderFulfillmentDto → Option ℕ → Order → Order
  fulfilled dto shipment_id order = record order {
    vin = some (to_upper (trim dto.vin));
    shipment_id = shipment_id;
  }

  module _ ⦃P : Prisma⦄ where
    open P use {Table, find_unique, update, update_many, new_id}

    abbrev pub shipped_table : List ℕ → ℕ → Table Order → Table Order
    shipped_table order_ids shipment_id t =
        update_many t (λ id _. any (λ listed. listed == id) order_ids) (with_shipment shipment_id)

    pub upsert-orders :
        (dto : UpsertShipmentDto) (url : Option String) (admin : ℕ) (ctx : RequestAuditContext)
        (w : World)
        → let (r, w') = upsert_shipment dto url admin ctx w in
          (r ≡ ok (new_id w.shipments))
          × (w'.orders ≡ shipped_table dto.order_ids (new_id w.shipments) w.orders)
    unfolding upsert_shipment
    upsert-orders dto url admin ctx w = (refl, refl)

    pub port-orders :
        (order_id : ℕ) (admin : ℕ) (w : World)
        → (notify_port_arrival order_id admin w).1.orders ≡ w.orders
    unfolding notify_port_arrival
    port-orders order_id admin w = ground arith

    module _ (order_id : ℕ) (dto : AssignOrderFulfillmentDto) (url : Option String) (admin : ℕ)
        (ctx : RequestAuditContext) (w : World) where
      -- Every outcome: refused with nothing changed; the given or former shipment; a new shipment.
      pub fulfil-cases :
          let w' = (assign_fulfillment order_id dto url admin ctx w).1 in
          (w'.orders ≡ w.orders)
          ⊎ ((order : Order) × (shipment_id : Option ℕ) × (find_unique w.orders order_id
                ≡ some order)
              × (w'.orders ≡ update w.orders order_id (fulfilled dto shipment_id)))
          ⊎ ((order : Order) × (ids : List ℕ) × (find_unique w.orders order_id ≡ some order)
              × (w'.orders
                  ≡ update
                      (shipped_table ids (new_id w.shipments) w.orders)
                      order_id
                      (fulfilled dto (some (new_id w.shipments)))))
      unfolding assign_fulfillment
      fulfil-cases = elim (Option-cases (find_unique w.orders order_id)) [
        | inl e ↦ inl (ground arith)
        | inr (order, e) ↦ elim (Option-cases dto.shipment) [
          | inr (new, n) ↦ inr (inr (order, order_id ∷ new.order_ids, e, ground arith))
          | inl n ↦ elim (Option-cases dto.shipment_id) [
            | inl m ↦ inr (inl (order, order.shipment_id, e, ground arith))
            | inr (given, m) ↦ elim (Option-cases (find_unique w.shipments given)) [
              | inl missing ↦ inl (ground arith)
              | inr (shipment, found) ↦ inr (inl (order, some given, e, ground arith))
            ]
          ]
        ]
      ]
