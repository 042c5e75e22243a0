-- ===== src/Orders/Steps/Effects.antt =====
-- Each call of the order service makes one step at the row of every order.
use uza_mobility_bn.Base.{
  ℕ, ◌≡◌, refl, String, Option, none, some, arith, inl, inr, ◌==◌, List, any, Bool-cases,
  Option-cases, ==_iff, ap, subst, ◌≢◌,
}
use uza_mobility_bn.Js.{Js}
use uza_mobility_bn.Db.{Prisma, PrismaLaws}
use uza_mobility_bn.Schema.Rows.{Order}
use uza_mobility_bn.Schema.World.{World}
use uza_mobility_bn.Orders.Progress.{
  with_status, advance_order_status, cancel_order, UpdateOrderStatusDto,
}
use uza_mobility_bn.Orders.Progress.Advance.{advance-cases, advance_refused, advance-eq_ok}
use uza_mobility_bn.Orders.Progress.Cancel.{
  as_cancelled, cancel-cases, cancel_refused, cancel-eq_ok,
}
use uza_mobility_bn.Platform.Audit.{RequestAuditContext}
use uza_mobility_bn.Orders.Creation.{create_from_invoice, new_order, order_of_invoice}
use uza_mobility_bn.Orders.Creation.Outcome.{
  order_number_now, create-cases, create-eq_existing, create-eq_refused, create-eq_new,
}
use uza_mobility_bn.Orders.Fulfillment.{
  UpsertShipmentDto, AssignOrderFulfillmentDto, upsert_shipment, assign_fulfillment,
  notify_port_arrival,
}
use uza_mobility_bn.Orders.Fulfillment.Outcome.{
  fulfilled, shipped_table, upsert-orders, port-orders, fulfil-cases,
}
use uza_mobility_bn.Orders.Steps.{OrderCall, create, advance, cancel, ship, fulfil, port, run_call}
use uza_mobility_bn.Orders.Steps.{RowStep, same, created, advanced, cancelled, shipped}

module _ ⦃N : Js⦄ ⦃P : Prisma⦄ where
  open N use {to_upper, trim}
  open P use {Table, find_unique, update, update_many, insert, new_id}

  -- A step at the row of every order.
  abbrev pub TableStep : ℕ → Table Order → Table Order → Type 0
  TableStep now t t' = (j : ℕ) → RowStep now t j (find_unique t j) (find_unique t' j)

  TableStep-same : (now : ℕ) (t t' : Table Order) → t' ≡ t → TableStep now t t'
  TableStep-same now t t' e j = rw e (same (find_unique t j))

  module _ ⦃L : PrismaLaws⦄ where
    open L use {find-update, find-insert, find-update_many, find-new_id, find_first-none}

    -- An update of one row, which was there, by an allowed change.
    TableStep-update :
        (now : ℕ) (t : Table Order) (i : ℕ) (f : Order → Order) {order : Order}
        → find_unique t i ≡ some order
        → ((j : ℕ) → RowStep now t j (some order) (some (f order)))
        → TableStep now t (update t i f)
    TableStep-update now t i f {order} e step j = elim (Bool-cases (i == j)) [
      | inl here ↦
          let at_j : find_unique t j ≡ some order =
            subst (λ k. find_unique t k ≡ some order) ((==_iff i j).0 here) e in
          rw (find-update, here, at_j) (step j)
      | inr other ↦ rw (find-update, other) (same (find_unique t j))
    ]

    module _ (order_id : ℕ) (admin : ℕ) (ctx : RequestAuditContext) (w : World) where
      pub advance-TableStep :
          (dto : UpdateOrderStatusDto)
          → TableStep w.now w.orders (advance_order_status order_id dto admin ctx w).1.orders
      advance-TableStep dto = elim (advance-cases order_id dto admin ctx w) [
        | inl refused ↦
            let e = advance_refused order_id dto admin ctx w refused in
            TableStep-same w.now w.orders (advance_order_status order_id dto admin ctx w).1.orders
              (ap (λ r. r.1.orders) e.1)
        | inr (order, next, e, n) ↦ rw ((advance-eq_ok order_id dto admin ctx w e n).1) (
            TableStep-update w.now w.orders order_id (with_status next w.now) e
              (λ j. advanced order next n))
      ]

      pub cancel-TableStep : TableStep w.now w.orders (cancel_order order_id admin ctx w).1.orders
      cancel-TableStep = elim (cancel-cases order_id admin ctx w) [
        | inl refused ↦
            let e = cancel_refused order_id admin ctx w refused in
            TableStep-same w.now w.orders (cancel_order order_id admin ctx w).1.orders
              (ap (λ r. r.1.orders) e.1)
        | inr (order, e, c) ↦
            rw ((cancel-eq_ok order_id admin ctx w e c).1)
              (TableStep-update w.now w.orders order_id as_cancelled e (λ j. cancelled order))
      ]

    -- Where no order of an invoice was found, every order is of another one.
    pub no_order_of_invoice :
        (invoice_id : ℕ) (w : World)
        → order_of_invoice invoice_id w ≡ none
        → (i : ℕ) (o : Order) → find_unique w.orders i ≡ some o
        → o.invoice_id ≢ invoice_id
    no_order_of_invoice invoice_id w e i o found =
        ground (arith, find_first-none w.orders (λ _ o. o.invoice_id == invoice_id) i o e found)

    pub create-TableStep :
        (invoice_id : ℕ) (w : World)
        → TableStep w.now w.orders (create_from_invoice invoice_id w).1.orders
    unfolding new_order
    create-TableStep invoice_id w j = elim (create-cases invoice_id w) [
      | inl (order_id, order, e) ↦
          rw (create-eq_existing invoice_id w e) (same (find_unique w.orders j))
      | inr (inl (e, n)) ↦ rw (create-eq_refused invoice_id w e n) (same (find_unique w.orders j))
      | inr (inr (invoice, listing_id, listing, e, n)) ↦
          let order =
            new_order (order_number_now invoice_id w) invoice invoice_id listing_id listing in
          rw ((create-eq_new invoice_id w e n).1, find-insert)
            (elim (Bool-cases (new_id w.orders == j)) [
              | inl here ↦
                  let fresh : find_unique w.orders j ≡ none =
                    subst (λ k. find_unique w.orders k ≡ none) ((==_iff (new_id w.orders) j).0 here)
                      (find-new_id w.orders) in
                  rw (here, fresh)
                    (created order refl ((==_iff (new_id w.orders) j).0 here)
                      (no_order_of_invoice invoice_id w e))
              | inr other ↦ rw other (same (find_unique w.orders j))
            ])
    ]

    -- Two changes that write the shipping columns alone make one step.
    TableStep-shipped_table :
        (now : ℕ) (t : Table Order) (ids : List ℕ) (shipment_id : ℕ)
        → TableStep now t (shipped_table ids shipment_id t)
    TableStep-shipped_table now t ids shipment_id j =
        rw find-update_many (elim (Option-cases (find_unique t j)) [
          | inl e ↦ rw e (same none)
          | inr (order, e) ↦ elim (Bool-cases (any (λ listed. listed == j) ids)) [
            | inl listed ↦ rw (e, listed) (shipped order order.vin (some shipment_id))
            | inr other ↦ rw (e, other) (same (some order))
          ]
        ])

    pub upsert-TableStep :
        (dto : UpsertShipmentDto) (url : Option String) (admin : ℕ) (ctx : RequestAuditContext)
        (w : World)
        → TableStep w.now w.orders (upsert_shipment dto url admin ctx w).1.orders
    upsert-TableStep dto url admin ctx w =
        rw ((upsert-orders dto url admin ctx w).1)
          (TableStep-shipped_table w.now w.orders dto.order_ids (new_id w.shipments))

    TableStep-fulfilled :
        (now : ℕ) (t : Table Order) (ids : List ℕ) (new : ℕ) (i : ℕ)
        (dto : AssignOrderFulfillmentDto) {order : Order}
        → find_unique t i ≡ some order
        → TableStep now t (update (shipped_table ids new t) i (fulfilled dto (some new)))
    TableStep-fulfilled now t ids new i dto {order} e j = elim (Bool-cases (i == j)) [
      | inr other ↦ rw (find-update, other) (TableStep-shipped_table now t ids new j)
      | inl here ↦
          let at_j : find_unique t j ≡ some order =
            subst (λ k. find_unique t k ≡ some order) ((==_iff i j).0 here) e in
          rw (find-update, here, find-update_many, at_j)
            (elim (Bool-cases (any (λ listed. listed == j) ids)) [
              | inl listed ↦ rw listed (shipped order (some (to_upper (trim dto.vin))) (some new))
              | inr other ↦ rw other (shipped order (some (to_upper (trim dto.vin))) (some new))
            ])
    ]

    pub fulfil-TableStep :
        (order_id : ℕ) (dto : AssignOrderFulfillmentDto) (url : Option String) (admin : ℕ)
        (ctx : RequestAuditContext) (w : World)
        → TableStep w.now w.orders (assign_fulfillment order_id dto url admin ctx w).1.orders
    fulfil-TableStep order_id dto url admin ctx w =
        elim (fulfil-cases order_id dto url admin ctx w) [
          | inl unchanged ↦
              TableStep-same w.now w.orders
                (assign_fulfillment order_id dto url admin ctx w).1.orders unchanged
          | inr (inl (order, shipment_id, e, changed)) ↦ rw changed (
              TableStep-update w.now w.orders order_id (fulfilled dto shipment_id) e
                (λ j. shipped order (some (to_upper (trim dto.vin))) shipment_id))
          | inr (inr (order, ids, e, changed)) ↦
              rw changed
                (TableStep-fulfilled w.now w.orders ids (new_id w.shipments) order_id dto e)
        ]

    -- Every call of the order service makes one step at every row.
    pub call-TableStep :
        (c : OrderCall) (w : World) → TableStep w.now w.orders (run_call c w).orders
    unfolding run_call
    call-TableStep (create invoice_id) w = create-TableStep invoice_id w
    call-TableStep (advance order_id dto admin ctx) w = advance-TableStep order_id admin ctx w dto
    call-TableStep (cancel order_id admin ctx) w = cancel-TableStep order_id admin ctx w
    call-TableStep (ship dto url admin ctx) w = upsert-TableStep dto url admin ctx w
    call-TableStep (fulfil order_id dto url admin ctx) w =
        fulfil-TableStep order_id dto url admin ctx w
    call-TableStep (port order_id admin) w =
        TableStep-same w.now w.orders (notify_port_arrival order_id admin w).1.orders
          (port-orders order_id admin w)
