-- ===== src/Orders/Steps.antt =====
-- What one call of the order service may do to the row of an order, and histories of such calls.
pub mod Effects
pub mod Invariant
pub mod Forward
use uza_mobility_bn.Base.{ℕ, ◌≡◌, ◌≢◌, String, Option, none, some}
use uza_mobility_bn.Js.{Js}
use uza_mobility_bn.Db.{Prisma}
use uza_mobility_bn.Schema.Commerce.{OrderStatus}
use uza_mobility_bn.Schema.Rows.{Order}
use uza_mobility_bn.Schema.World.{World}
use uza_mobility_bn.Platform.Audit.{RequestAuditContext}
use uza_mobility_bn.Orders.Stages.{get_next_order_status}
use uza_mobility_bn.Orders.Creation.{create_from_invoice}
use uza_mobility_bn.Orders.Progress.{
  UpdateOrderStatusDto, with_status, advance_order_status, cancel_order,
}
use uza_mobility_bn.Orders.Progress.Cancel.{as_cancelled}
use uza_mobility_bn.Orders.Fulfillment.{
  UpsertShipmentDto, AssignOrderFulfillmentDto, upsert_shipment, assign_fulfillment,
  notify_port_arrival,
}

module _ ⦃N : Js⦄ where
  -- The columns that `assignFulfillment` and `upsertShipment` write.
  abbrev pub shipped_with : Option String → Option ℕ → Order → Order
  shipped_with vin shipment_id order = record order { vin = vin; shipment_id = shipment_id }

  module _ ⦃P : Prisma⦄ where
    open P use {Table, find_unique, new_id}

    -- From the row `j` of a table before a call to that row after it; `now` is the time of the
    -- call. A row is created under the new id, for an invoice that has no order yet.
    pub data RowStep (now : ℕ) (t : Table Order) (j : ℕ)
        : Option Order → Option Order → Type 0 where
      same : (row : Option Order) → RowStep now t j row row
      created :
          (order : Order)
          → order.status ≡ OrderStatus.payment_confirmed
          → new_id t ≡ j
          → ((i : ℕ) (o : Order) → find_unique t i ≡ some o → o.invoice_id ≢ order.invoice_id)
          → RowStep now t j none (some order)
      advanced :
          (order : Order) (next : OrderStatus)
          → get_next_order_status order.seller_type order.status ≡ some next
          → RowStep now t j (some order) (some (with_status next now order))
      cancelled : (order : Order) → RowStep now t j (some order) (some (as_cancelled order))
      shipped :
          (order : Order) (vin : Option String) (shipment_id : Option ℕ)
          → RowStep now t j (some order) (some (shipped_with vin shipment_id order))

    -- The calls of the order service that write, and whatever leaves the table of orders alone.
    pub data OrderCall : Type 0 where
      create : ℕ → OrderCall
      advance : ℕ → UpdateOrderStatusDto → ℕ → RequestAuditContext → OrderCall
      cancel : ℕ → ℕ → RequestAuditContext → OrderCall
      ship : UpsertShipmentDto → Option String → ℕ → RequestAuditContext → OrderCall
      fulfil : ℕ → AssignOrderFulfillmentDto → Option String → ℕ → RequestAuditContext → OrderCall
      port : ℕ → ℕ → OrderCall

    unfoldable pub run_call : OrderCall → World → World
    run_call (create invoice_id) w = (create_from_invoice invoice_id w).1
    run_call (advance order_id dto admin ctx) w = (advance_order_status order_id dto admin ctx w).1
    run_call (cancel order_id admin ctx) w = (cancel_order order_id admin ctx w).1
    run_call (ship dto url admin ctx) w = (upsert_shipment dto url admin ctx w).1
    run_call (fulfil order_id dto url admin ctx) w =
        (assign_fulfillment order_id dto url admin ctx w).1
    run_call (port order_id admin) w = (notify_port_arrival order_id admin w).1

    pub data OrderHistory (start : World) : World → Type 0 where
      begin : OrderHistory start start
      call :
          {w : World} → OrderHistory start w → (c : OrderCall) → OrderHistory start (run_call c w)
      elsewhere :
          {w w' : World} → OrderHistory start w → w'.orders ≡ w.orders → OrderHistory start w'
