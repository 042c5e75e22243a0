-- ===== src/Bookings/Steps/Effects.antt =====
-- Each call of the booking service makes one step at the row of every booking.
use uza_mobility_bn.Base.{
  ℕ, ◌≡◌, refl, ap, Option, none, some, Bool, true, arith, inl, inr, ◌==◌, Bool-cases, ==_iff,
  subst,
}
use uza_mobility_bn.Base.Text.{◌===◌}
use uza_mobility_bn.Js.{Js}
use uza_mobility_bn.Db.{Prisma, PrismaLaws}
use uza_mobility_bn.Schema.Commerce.{VehicleBookingStatus, vehicle_booking_status_enum}
use uza_mobility_bn.Schema.Rows.{VehicleBooking}
use uza_mobility_bn.Schema.World.{World}
use uza_mobility_bn.Api.{Action}
use uza_mobility_bn.Bookings.Request.{is_active_booking, new_booking, request_booking}
use uza_mobility_bn.Bookings.Fee.{update_booking_fee}
use uza_mobility_bn.Bookings.Submission.{submit_booking_payment}
use uza_mobility_bn.Bookings.Cancellation.{cancel_booking_by_buyer}
use uza_mobility_bn.Bookings.Verification.{confirm_booking, reject_booking}
use uza_mobility_bn.Bookings.Outcome.{
  Throws, Changes, request_booking-cases, fee-cases, submit-cases, confirm-cases, reject-cases,
}
use uza_mobility_bn.Bookings.Outcome.Cancelled.{cancel-cases}
use uza_mobility_bn.Bookings.Steps.{
  NoneActive, BookingStep, BookingsStep, same, requested, repriced, paid, confirmed, rejected,
  cancelled, BookingCall, request, set_fee, pay, cancel, confirm, reject, run_booking_call,
}

module _ ⦃N : Js⦄ ⦃P : Prisma⦄ ⦃L : PrismaLaws⦄ where
  open P use {Table, find_unique, find_first, update, insert, new_id}
  open L use {find-update, find-insert, find-new_id, find_first-none}

  kept : (t t' : Table VehicleBooking) → t' ≡ t → BookingsStep t t'
  kept t t' e j = rw e (same (find_unique t j))

  thrown :
      {A : Type 0} (call : Action World A) (w : World)
      → Throws call w
      → BookingsStep w.bookings (call w).1.bookings
  thrown call w (e, same_world) j = rw same_world (same (find_unique w.bookings j))

  changed :
      (call : Action World (Option VehicleBooking)) (w : World) (i : ℕ)
      {test : VehicleBooking → Bool} {change : VehicleBooking → VehicleBooking}
      → Changes call w i test change
      → ((j : ℕ) (b : VehicleBooking)
          → test b ≡ true
          → BookingStep w.bookings j (some b) (some (change b)))
      → BookingsStep w.bookings (call w).1.bookings
  changed call w i {test} {change} (b, found, holds, _, written) step j =
      elim (Bool-cases (i == j)) [
        | inl here ↦
            let at_j : find_unique w.bookings j ≡ some b =
              subst (λ k. find_unique w.bookings k ≡ some b) ((==_iff i j).0 here) found in
            rw (written, find-update, here, at_j) (step j b holds)
        | inr other ↦ rw (written, find-update, other) (same (find_unique w.bookings j))
      ]

  -- Where the search found nothing, there is no active booking.
  NoneActive-find_first :
      (t : Table VehicleBooking) (user_id listing_id : ℕ)
      → find_first t (is_active_booking user_id listing_id) ≡ none
      → NoneActive t user_id listing_id
  NoneActive-find_first t user_id listing_id n i b found user listing active =
      absurd (ground (arith, find_first-none t (is_active_booking user_id listing_id) i b n found))

  added :
      (t : Table VehicleBooking) (b : VehicleBooking)
      → b.status ≡ VehicleBookingStatus.awaiting_payment
      → NoneActive t b.user_id b.listing_id
      → BookingsStep t (insert t b)
  added t b awaiting fresh j = elim (Bool-cases (new_id t == j)) [
    | inl here ↦
        let at_j : new_id t ≡ j = (==_iff _ _).0 here in
        let empty : find_unique t j ≡ none =
          subst (λ k. find_unique t k ≡ none) at_j (find-new_id t) in
        rw (find-insert, here, empty) (requested b awaiting at_j fresh)
    | inr other ↦ rw (find-insert, other) (same (find_unique t j))
  ]

  pub call-BookingsStep :
      (c : BookingCall) (w : World) → BookingsStep w.bookings (run_booking_call c w).bookings
  unfolding run_booking_call new_booking
  call-BookingsStep (request user dto ctx) w = elim (request_booking-cases user dto ctx w) [
    | inl t ↦ thrown (request_booking user dto ctx) w t
    | inr (b, i, r, written) ↦ rw written (
        added w.bookings (new_booking user dto w) refl
          (NoneActive-find_first w.bookings user dto.listing_id b))
  ]
  call-BookingsStep (set_fee admin id dto ctx) w = elim (fee-cases id w admin dto ctx) [
    | inl t ↦ thrown (update_booking_fee admin id dto ctx) w t
    | inr (fee, n, c) ↦
        changed (update_booking_fee admin id dto ctx) w id c
          (λ j b h. repriced b fee _ (ground (arith, h)))
  ]
  call-BookingsStep (pay user id dto urls ctx) w = elim (submit-cases id w user dto urls ctx) [
    | inl t ↦ thrown (submit_booking_payment user id dto urls ctx) w t
    | inr c ↦
        changed (submit_booking_payment user id dto urls ctx) w id c (λ j b h. paid b dto _ w.now h)
  ]
  call-BookingsStep (cancel user id ctx) w = elim (cancel-cases id w user ctx) [
    | inl (e, t, _) ↦ thrown (cancel_booking_by_buyer user id ctx) w (e, t)
    | inr (b, f, o, inl (s, e)) ↦ kept w.bookings _ (ap (λ x. x.1.bookings) e)
    | inr (b, f, o, inr (s, p, r, t)) ↦
        changed (cancel_booking_by_buyer user id ctx) w id
          {test = λ x. x.status === VehicleBookingStatus.awaiting_payment}
          {change = λ x. record x { status = VehicleBookingStatus.cancelled }}
          (b, f, ground (arith, s), r, t) (λ j b h. cancelled b (ground (arith, h)))
  ]
  call-BookingsStep (confirm admin id ctx) w = elim (confirm-cases id w admin ctx) [
    | inl t ↦ thrown (confirm_booking admin id ctx) w t
    | inr c ↦ changed (confirm_booking admin id ctx) w id c (λ j b h. confirmed b admin w.now h)
  ]
  call-BookingsStep (reject admin id reason ctx) w = elim (reject-cases id w admin reason ctx) [
    | inl t ↦ thrown (reject_booking admin id reason ctx) w t
    | inr c ↦
        changed (reject_booking admin id reason ctx) w id c
          (λ j b h. rejected b reason admin w.now h)
  ]
