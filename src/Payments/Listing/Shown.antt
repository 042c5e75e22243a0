-- ===== src/Payments/Listing/Shown.antt =====
-- What the filter of a buyer's payments always shows.
use uza_mobility_bn.Base.{
  ◌⊎◌, ◌≡◌, refl, sym, Bool, true, some, List, [], ◌∷◌, arith, keep, Memᴰ, Bool-cases, inl, inr,
  ◌==◌, ==_iff, ==_refl,
}
use uza_mobility_bn.Base.Text.{◌===◌}
use uza_mobility_bn.Schema.Commerce.{PaymentStatus, payment_status_enum}
use uza_mobility_bn.Payments.Listing.{
  PaymentRow, latest_id, is_visible, filter_superseded_rejected_payments,
}

keep-Memᴰ :
    (f : PaymentRow → Bool) (ps : List PaymentRow) (p : PaymentRow)
    → Memᴰ p ps
    → f p ≡ true
    → Memᴰ p (keep f ps)
keep-Memᴰ f [] p m h = elim m [ ]
keep-Memᴰ f (x ∷ ps) p (Memᴰ.head e) h =
    let passes : f x ≡ true = rw (sym e) h in rw (passes, keep) (Memᴰ.head e)
keep-Memᴰ f (x ∷ ps) p (Memᴰ.tail m) h = elim (Bool-cases (f x)) [
  | inl e ↦ rw (e, keep) (Memᴰ.tail (keep-Memᴰ f ps p m h))
  | inr e ↦ rw (e, keep) (keep-Memᴰ f ps p m h)
]

-- The first row of an invoice is the latest one.
latest_of :
    (ps : List PaymentRow) (p : PaymentRow)
    → Memᴰ p ps
    → (q : PaymentRow) × (Memᴰ q ps)
      × (q.invoice_id ≡ p.invoice_id)
      × (latest_id p.invoice_id ps ≡ some q.id)
unfolding latest_id
latest_of [] p m = elim m [ ]
latest_of (x ∷ ps) p (Memᴰ.head e) =
    let same : x.invoice_id ≡ p.invoice_id = rw e refl in
    (x, Memᴰ.head refl, same, rw (same, ==_refl p.invoice_id))
latest_of (x ∷ ps) p (Memᴰ.tail m) = elim (Bool-cases (x.invoice_id == p.invoice_id)) [
  | inl e ↦ (x, Memᴰ.head refl, (==_iff _ _).0 e, rw e)
  | inr e ↦
      let (q, there, same, latest) = latest_of ps p m in (q, Memᴰ.tail there, same, rw (e, latest))
]

-- Each payment of the list that is not rejected is shown, and for each payment, rejected or not,
-- some payment of the same invoice is shown.
pub filter_shows :
    (payments : List PaymentRow) (p : PaymentRow)
    → Memᴰ p payments
    → (((p.status === PaymentStatus.rejected) ≡ true)
        ⊎ Memᴰ p (filter_superseded_rejected_payments payments))
      × ((q : PaymentRow) × (Memᴰ q (filter_superseded_rejected_payments payments))
          × (q.invoice_id ≡ p.invoice_id))
unfolding filter_superseded_rejected_payments
filter_shows payments p m =
    let (q, there, same, latest) = latest_of payments p m in
    let seen : is_visible payments q ≡ true = ground (arith, same, latest, ==_refl q.id) in
    (
      elim (Bool-cases (p.status === PaymentStatus.rejected)) [
        | inl r ↦ inl r
        | inr o ↦ inr (keep-Memᴰ (is_visible payments) payments p m (ground (arith, o)))
      ],
      (q, keep-Memᴰ (is_visible payments) payments q there seen, same),
    )
