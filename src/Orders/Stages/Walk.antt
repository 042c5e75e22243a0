-- ===== src/Orders/Stages/Walk.antt =====
-- The walk through the stages of an order.
use uza_mobility_bn.Base.{ℕ, suc, ◌≡◌, ◌⊎◌, ◌↔◌, some, List, [], ◌∷◌, get_elem?, arith, false}
use uza_mobility_bn.Base.Text.{◌===◌}
use uza_mobility_bn.Schema.Catalog.{SellerType}
use uza_mobility_bn.Schema.Commerce.{OrderStatus, order_status_enum}
use uza_mobility_bn.Orders.Stages.{order_stages, get_next_order_status}

-- `b` stands directly behind `a` in the list.
abbrev pub Follows : OrderStatus → OrderStatus → List OrderStatus → Type 0
Follows a b [] = ⊥
Follows a b (x ∷ []) = ⊥
Follows a b (x ∷ y ∷ r) = ((a ≡ x) × (b ≡ y)) ⊎ Follows a b (y ∷ r)

pub next-Follows :
    (t : SellerType) (s : OrderStatus) {n : OrderStatus}
    → get_next_order_status t s ≡ some n
    → Follows s n (order_stages t)
unfolding get_next_order_status
next-Follows SellerType.uza_rwanda_stock s e = ground arith
next-Follows _ s e = ground arith

pub Follows-next :
    (t : SellerType) (s n : OrderStatus)
    → Follows s n (order_stages t)
    → get_next_order_status t s ≡ some n
unfolding get_next_order_status
Follows-next SellerType.uza_rwanda_stock s n f = ground arith
Follows-next _ s n f = ground arith

-- An order whose status has a next stage is neither cancelled nor delivered.
pub next-open :
    (t : SellerType) (s : OrderStatus) {n : OrderStatus}
    → get_next_order_status t s ≡ some n
    → ((s === OrderStatus.cancelled) ≡ false) × ((s === OrderStatus.delivered) ≡ false)
unfolding get_next_order_status
next-open SellerType.uza_rwanda_stock s e = ground arith
next-open _ s e = ground arith

-- The k-th advance leads from the k-th stage to the one behind it.
pub next-of_index :
    (t : SellerType) (k : ℕ) {s n : OrderStatus}
    → get_elem? (order_stages t) k ≡ some s
    → get_elem? (order_stages t) (suc k) ≡ some n
    → get_next_order_status t s ≡ some n
unfolding get_next_order_status
next-of_index SellerType.uza_rwanda_stock k e f = ground arith
next-of_index _ k e f = ground arith

-- The next stage of a status is the one that stands directly behind it among the stages of the kind
-- of seller, and a status with nothing behind it, or no stage of that kind, has none.
pub next_iff_Follows :
    (t : SellerType) (s n : OrderStatus)
    → (get_next_order_status t s ≡ some n) ↔ Follows s n (order_stages t)
next_iff_Follows t s n = (next-Follows t s, Follows-next t s n)
