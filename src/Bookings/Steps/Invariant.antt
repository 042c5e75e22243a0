-- ===== src/Bookings/Steps/Invariant.antt =====
-- The invariants of the table of bookings, through every history of calls.
use uza_mobility_bn.Base.{
  ℕ, ◌≡◌, refl, sym, ◌∙◌, Option, none, some, Bool, true, arith, inl, inr, ◌⊎◌, is_some, subst,
  List, [], ◌∷◌, ◌||◌,
}
use uza_mobility_bn.Base.Text.{includes, ◌===◌}
use uza_mobility_bn.Js.{Js}
use uza_mobility_bn.Db.{Prisma, PrismaLaws}
use uza_mobility_bn.Schema.Commerce.{VehicleBookingStatus, vehicle_booking_status_enum}
use uza_mobility_bn.Schema.Rows.{VehicleBooking}
use uza_mobility_bn.Schema.World.{World}
use uza_mobility_bn.Bookings.Statuses.{active_booking_statuses}
use uza_mobility_bn.Bookings.Submission.{can_submit_payment}
use uza_mobility_bn.Bookings.Steps.{
  BookingStep, BookingsStep, same, requested, repriced, paid, confirmed, rejected, cancelled,
  NoneActive, BookingHistory, begin, call, elsewhere,
}
use uza_mobility_bn.Bookings.Steps.Effects.{call-BookingsStep}

-- The statuses that the calls can bring about.
abbrev pub live_statuses : List VehicleBookingStatus
live_statuses =
    VehicleBookingStatus.awaiting_payment ∷ VehicleBookingStatus.under_verification
    ∷ VehicleBookingStatus.confirmed ∷ VehicleBookingStatus.cancelled ∷ []

module _ ⦃N : Js⦄ where
  -- A live status; beyond the request for payment the amount paid is known; and a confirmed booking
  -- names who confirmed it and when.
  pub record IsValidBooking (b : VehicleBooking) : Type 0 where
    pub live : includes live_statuses b.status ≡ true
    pub paid_for :
        (b.status === VehicleBookingStatus.under_verification
            || b.status === VehicleBookingStatus.confirmed)
          ≡ true
        → is_some b.amount_paid ≡ true
    pub signed :
        b.status ≡ VehicleBookingStatus.confirmed
        → (is_some b.confirmed_at ≡ true) × (is_some b.verified_by ≡ true)

  abbrev IsValidRow : Option VehicleBooking → Type 0
  IsValidRow none = Unit
  IsValidRow (some b) = IsValidBooking b

  abbrev is_active : VehicleBooking → Bool
  is_active b = includes active_booking_statuses b.status

  module _ ⦃P : Prisma⦄ where
    open P use {Table, find_unique, new_id}

    BookingStep-IsValidRow :
        {t : Table VehicleBooking} {j : ℕ} {r r' : Option VehicleBooking}
        → BookingStep t j r r'
        → IsValidRow r
        → IsValidRow r'
    BookingStep-IsValidRow (same row) v = v
    BookingStep-IsValidRow (requested b awaiting new fresh) v = record {
      live = ground (arith, awaiting);
      paid_for = ground (arith, awaiting);
      signed = ground (arith, awaiting);
    }
    BookingStep-IsValidRow (repriced b fee rate awaiting) v = record {
      live = v.live;
      paid_for = v.paid_for;
      signed = v.signed;
    }
    BookingStep-IsValidRow (paid b dto rate now payable) v = record {
      live = refl;
      paid_for = λ _. refl;
      signed = ground arith;
    }
    BookingStep-IsValidRow (confirmed b admin now awaits) v = record {
      live = refl;
      paid_for = λ _. v.paid_for (ground (arith, v.live, awaits));
      signed = λ _. (refl, refl);
    }
    BookingStep-IsValidRow (rejected b reason admin now awaits) v = record {
      live = refl;
      paid_for = ground arith;
      signed = ground arith;
    }
    BookingStep-IsValidRow (cancelled b awaiting) v = record {
      live = refl;
      paid_for = ground arith;
      signed = ground arith;
    }

    abbrev pub AllValid : Table VehicleBooking → Type 0
    AllValid t = (j : ℕ) (b : VehicleBooking) → find_unique t j ≡ some b → IsValidBooking b

    row_of : (t : Table VehicleBooking) (j : ℕ) → AllValid t → IsValidRow (find_unique t j)
    row_of t j v = go (find_unique t j) refl
      where
        go : (r : Option VehicleBooking) → find_unique t j ≡ r → IsValidRow r
        go none e = tt
        go (some b) e = v j b e

    step-AllValid : {t t' : Table VehicleBooking} → BookingsStep t t' → AllValid t → AllValid t'
    step-AllValid {t} {t'} step v j b e =
        subst IsValidRow e (BookingStep-IsValidRow (step j) (row_of t j v))

    -- No buyer has two active bookings of one listing.
    abbrev pub OneActiveBooking : Table VehicleBooking → Type 0
    OneActiveBooking t =
        (i j : ℕ) (a b : VehicleBooking)
        → find_unique t i ≡ some a
        → find_unique t j ≡ some b
        → a.user_id ≡ b.user_id
        → a.listing_id ≡ b.listing_id
        → is_active a ≡ true
        → is_active b ≡ true
        → i ≡ j

    -- Where an active row comes from: an active row of the same buyer and listing, or the new one.
    Origin : Table VehicleBooking → ℕ → Option VehicleBooking → VehicleBooking → Type 0
    Origin t j r b' =
        ((b : VehicleBooking) × (r ≡ some b)
          × (b.user_id ≡ b'.user_id)
          × (b.listing_id ≡ b'.listing_id)
          × (is_active b ≡ true))
        ⊎ ((new_id t ≡ j) × NoneActive t b'.user_id b'.listing_id)

    origin :
        {t : Table VehicleBooking} {j : ℕ} {r r' : Option VehicleBooking}
        → BookingStep t j r r'
        → IsValidRow r
        → (b' : VehicleBooking) → r' ≡ some b'
        → is_active b' ≡ true
        → Origin t j r b'
    unfolding Origin can_submit_payment
    origin (same row) v b' e a = inl (b', e, refl, refl, a)
    origin {t} (requested b awaiting new fresh) v b' e a =
        let user : b.user_id ≡ b'.user_id = ground (arith, e) in
        let listing : b.listing_id ≡ b'.listing_id = ground (arith, e) in
        inr (new, λ i x found u l. fresh i x found (u ∙ sym user) (l ∙ sym listing))
    origin (repriced b fee rate awaiting) v b' e a =
        inl (b, refl, ground (arith, e), ground (arith, e), ground (arith, awaiting))
    origin (paid b dto rate now payable) v b' e a =
        inl (b, refl, ground (arith, e), ground (arith, e), ground (arith, payable, v.live))
    origin (confirmed b admin now awaits) v b' e a =
        inl (b, refl, ground (arith, e), ground (arith, e), ground (arith, awaits))
    origin (rejected b reason admin now awaits) v b' e a =
        inl (b, refl, ground (arith, e), ground (arith, e), ground (arith, awaits))
    origin (cancelled b awaiting) v b' e a =
        inl (b, refl, ground (arith, e), ground (arith, e), ground (arith, awaiting))

    step-OneActiveBooking :
        {t t' : Table VehicleBooking}
        → BookingsStep t t'
        → AllValid t
        → OneActiveBooking t
        → OneActiveBooking t'
    unfolding Origin
    step-OneActiveBooking {t} {t'} step v one i j a b found found' user listing active active' =
        join (origin (step i) (row_of t i v) a found active)
          (origin (step j) (row_of t j v) b found' active')
      where
        join : Origin t i (find_unique t i) a → Origin t j (find_unique t j) b → i ≡ j
        join (inl (p, e, u, l, c)) (inl (q, f, u', l', c')) =
            one i j p q e f (u ∙ user ∙ sym u') (l ∙ listing ∙ sym l') c c'
        join (inl (p, e, u, l, c)) (inr (new, fresh)) =
            absurd (fresh i p e (u ∙ user) (l ∙ listing) c)
        join (inr (new, fresh)) (inl (q, f, u, l, c)) =
            absurd (fresh j q f (u ∙ sym user) (l ∙ sym listing) c)
        join (inr (new, fresh)) (inr (new', fresh')) = sym new ∙ new'

    module _ ⦃L : PrismaLaws⦄ where
      -- Through every history of calls of the booking service, in any order, with anything between
      -- them that leaves the bookings alone: if at the start every booking is valid and no buyer has
      -- two active bookings of one listing, so it is at the end.
      pub bookings_valid :
          (start : World) {w : World}
          → AllValid start.bookings
          → OneActiveBooking start.bookings
          → BookingHistory start w
          → AllValid w.bookings × OneActiveBooking w.bookings
      bookings_valid start v one begin = (v, one)
      bookings_valid start v one (call {w = before} h c) =
          let (v', one') = bookings_valid start v one h in
          let step = call-BookingsStep c before in
          (step-AllValid step v', step-OneActiveBooking step v' one')
      bookings_valid start v one (elsewhere h e) = rw e (bookings_valid start v one h)
