-- ===== src/Tests/Orders.antt =====
-- The theorems on orders at concrete data.
use uza_mobility_bn.Base.{◌≡◌, ◌↔◌, refl, some, none, [], ◌∷◌, is_some, true, arith}
use uza_mobility_bn.Schema.Catalog.{SellerType, ListingStatus}
use uza_mobility_bn.Schema.Commerce.{InvoiceStatus, OrderStatus}
use uza_mobility_bn.Schema.Rows.{Order}
use uza_mobility_bn.Schema.World.{World}
use uza_mobility_bn.Orders.Stages.{order_stages, get_next_order_status}
use uza_mobility_bn.Orders.Stages.Walk.{Follows, next_iff_Follows}
use uza_mobility_bn.Orders.Progress.{UpdateOrderStatusDto}
use uza_mobility_bn.Orders.Progress.Advance.{AdvanceOutcome, advance_outcome}
use uza_mobility_bn.Orders.Progress.Cancel.{CancelOutcome, cancel_outcome}
use uza_mobility_bn.Orders.Progress.Completion.{advance_times, new_order_delivered}
use uza_mobility_bn.Orders.Steps.{begin, call, run_call, create, advance, cancel}
use uza_mobility_bn.Orders.Steps.Invariant.{AllValid, OnePerInvoice, history_valid}
use uza_mobility_bn.Orders.Steps.Forward.{Forward, history-Forward}
use uza_mobility_bn.Tests.Natural.{natural, natural_laws}
use uza_mobility_bn.Tests.Memory.{memory, memory_laws}
use uza_mobility_bn.Tests.Data.{world, invoice_of, order_at, context}

no_orders-AllValid : AllValid []
no_orders-AllValid j order e = absurd (ground (arith, e))

no_orders-OnePerInvoice : OnePerInvoice []
no_orders-OnePerInvoice i j o o' e e' s = absurd (ground (arith, e))

abbrev note : UpdateOrderStatusDto
note = record { description = none; location = none }

-- A paid invoice, and no order yet.
abbrev paid : World
paid =
    world ListingStatus.published (invoice_of (some 0) InvoiceStatus.payment_confirmed ∷ []) [] []
      []

-- An order that waits for its first advance.
abbrev ordered : World
ordered =
    world ListingStatus.published (invoice_of (some 0) InvoiceStatus.payment_confirmed ∷ []) []
      (order_at OrderStatus.payment_confirmed ∷ []) []

history_valid_example :
    AllValid (run_call (advance 0 note 7 context) (run_call (create 0) paid)).orders
    × OnePerInvoice (run_call (advance 0 note 7 context) (run_call (create 0) paid)).orders
history_valid_example =
    history_valid paid no_orders-AllValid no_orders-OnePerInvoice
      (call (call begin (create 0)) (advance 0 note 7 context))

history-Forward_example :
    (o' : Order) × (memory.find_unique
        (run_call (cancel 0 7 context) (run_call (advance 0 note 7 context) ordered)).orders
        0
      ≡ some o')
    × Forward (order_at OrderStatus.payment_confirmed) o'
history-Forward_example =
    history-Forward ordered 0 (order_at OrderStatus.payment_confirmed) refl
      (call (call begin (advance 0 note 7 context)) (cancel 0 7 context))

new_order_delivered_example :
    (o' : Order) × (memory.find_unique (advance_times 0 note 7 context 3 ordered).orders 0
      ≡ some o')
    × (o'.status ≡ OrderStatus.delivered)
    × (is_some o'.actual_delivery_date ≡ true)
unfolding order_stages
new_order_delivered_example =
    new_order_delivered 0 note 7 context ordered (order_at OrderStatus.payment_confirmed) refl refl

next_iff_Follows_example :
    (get_next_order_status SellerType.local_seller OrderStatus.payment_confirmed
      ≡ some OrderStatus.vehicle_reserved)
    ↔ Follows OrderStatus.payment_confirmed OrderStatus.vehicle_reserved
        (order_stages SellerType.local_seller)
next_iff_Follows_example =
    next_iff_Follows SellerType.local_seller OrderStatus.payment_confirmed
      OrderStatus.vehicle_reserved

advance_outcome_example : AdvanceOutcome 0 note 7 context ordered
advance_outcome_example = advance_outcome 0 note 7 context ordered

cancel_outcome_example : CancelOutcome 0 7 context ordered
cancel_outcome_example = cancel_outcome 0 7 context ordered
