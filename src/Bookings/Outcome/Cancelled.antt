-- ===== src/Bookings/Outcome/Cancelled.antt =====
-- What the cancellation of a booking does, on every branch.
use uza_mobility_bn.Base.{
  ℕ, ◌≡◌, none, some, Option, is_some, true, false, arith, inl, inr, ◌⊎◌, Option-cases, Bool-cases,
  ==_refl, ==_iff, ◌==◌,
}
use uza_mobility_bn.Base.Text.{◌===◌}
use uza_mobility_bn.Js.{Js}
use uza_mobility_bn.Db.{Prisma, PrismaLaws}
use uza_mobility_bn.Schema.Commerce.{VehicleBookingStatus, vehicle_booking_status_enum}
use uza_mobility_bn.Schema.Rows.{VehicleBooking}
use uza_mobility_bn.Schema.World.{World}
use uza_mobility_bn.Api.{Action, ApiError, ok, err, bad_request, not_found, forbidden, internal}
use uza_mobility_bn.Platform.Audit.{RequestAuditContext}
use uza_mobility_bn.Bookings.Statuses.{proof_of_booking}
use uza_mobility_bn.Bookings.Cancellation.{booking_with_status, cancel_booking_by_buyer}

module _ ⦃N : Js⦄ ⦃P : Prisma⦄ where
  open P use {find_unique, update}

  module _ ⦃L : PrismaLaws⦄ (booking_id : ℕ) (w : World) where
    open L use {find-update}

    -- What stands against the cancellation of a booking that is not cancelled.
    abbrev pub Blocked : VehicleBooking → Type 0
    Blocked booking =
        ((booking.status === VehicleBookingStatus.awaiting_payment) ≡ false)
        ⊎ (is_some (proof_of_booking booking_id w) ≡ true)
        ⊎ (find_unique w.listings booking.listing_id ≡ none)
        ⊎ (find_unique w.users booking.user_id ≡ none)

    -- The call cancels the booking and returns it.
    abbrev pub Cancels : Action World (Option VehicleBooking) → VehicleBooking → Type 0
    Cancels call booking =
        (booking.status ≡ VehicleBookingStatus.awaiting_payment)
        × (proof_of_booking booking_id w ≡ none)
        × ((call w).0 ≡ ok (some (record booking { status = VehicleBookingStatus.cancelled })))
        × ((call w).1.bookings
            ≡ update w.bookings booking_id
                (λ b. record b { status = VehicleBookingStatus.cancelled }))

    -- The call on a booking that is open.
    open_cancel-cases :
        (user_id : ℕ) (ctx : RequestAuditContext) {booking : VehicleBooking}
        → find_unique w.bookings booking_id ≡ some booking
        → (booking.user_id == user_id) ≡ true
        → (booking.status === VehicleBookingStatus.awaiting_payment) ≡ true
        → let call = cancel_booking_by_buyer user_id booking_id ctx in
          ((e : ApiError) × (call w ≡ (err e, w)) × Blocked booking) ⊎ Cancels call booking
    unfolding cancel_booking_by_buyer
    open_cancel-cases user_id ctx {booking} e o c =
        elim (Option-cases (proof_of_booking booking_id w)) [
          | inr (_, p) ↦ inl (
            bad_request "Cannot cancel after payment proof has been submitted",
            ground arith,
            inr (inl (ground (arith, p))),
          )
          | inl p ↦ elim (Option-cases (find_unique w.listings booking.listing_id)) [
            | inl l ↦
                inl (internal "the foreign key of the listing", ground arith, inr (inr (inl l)))
            | inr (listing, l) ↦ elim (Option-cases (find_unique w.users booking.user_id)) [
              | inl u ↦
                  inl (internal "the foreign key of the user", ground arith, inr (inr (inr u)))
              | inr (user, u) ↦ inr (
                ground (arith, c),
                p,
                ground (
                  arith,
                  ==_refl booking_id,
                  find-update w.bookings booking_id
                      (booking_with_status VehicleBookingStatus.cancelled) booking_id,
                ),
                ground arith,
              )
            ]
          ]
        ]

    abbrev pub CancelOutcome : ℕ → RequestAuditContext → Type 0
    CancelOutcome user_id ctx =
        let call = cancel_booking_by_buyer user_id booking_id ctx in
        ((e : ApiError) × (call w ≡ (err e, w))
          × ((find_unique w.bookings booking_id ≡ none)
              ⊎ ((booking : VehicleBooking) × (find_unique w.bookings booking_id ≡ some booking)
                  × (((booking.user_id == user_id) ≡ false)
                      ⊎ ((booking.status === VehicleBookingStatus.cancelled) ≡ false)
                        × Blocked booking))))
        ⊎ ((booking : VehicleBooking) × (find_unique w.bookings booking_id ≡ some booking)
            × (booking.user_id ≡ user_id)
            × ((booking.status ≡ VehicleBookingStatus.cancelled) × (call w ≡ (ok (some booking), w))
                ⊎ Cancels call booking))

    -- A cancellation throws and writes nothing, and then there is no such booking, or it is another
    -- buyer's, or it is not cancelled and does not await its payment, has a payment proof, or lacks
    -- its listing or user; or the booking under the id is the buyer's, and if it is cancelled, it is
    -- returned and nothing is written, and else it awaited its payment without a proof, and it alone
    -- among the bookings is cancelled, and returned.
    pub cancel-cases : (user_id : ℕ) (ctx : RequestAuditContext) → CancelOutcome user_id ctx
    unfolding cancel_booking_by_buyer
    cancel-cases user_id ctx = elim (Option-cases (find_unique w.bookings booking_id)) [
      | inl e ↦ inl (not_found "Booking not found", ground arith, inl e)
      | inr (booking, e) ↦ elim (Bool-cases (booking.user_id == user_id)) [
        | inr o ↦
            inl (forbidden "You do not own this booking", ground arith, inr (booking, e, inl o))
        | inl o ↦ elim (Bool-cases (booking.status === VehicleBookingStatus.cancelled)) [
          | inl s ↦
              inr (booking, e, (==_iff _ _).0 o, inl (ground (arith, s), ground (arith, e, o, s)))
          | inr s ↦ elim (Bool-cases (booking.status === VehicleBookingStatus.awaiting_payment)) [
            | inr c ↦ inl (
              bad_request "This booking can only be cancelled before payment proof is submitted",
              ground (arith, e, o, s, c),
              inr (booking, e, inr (s, inl c)),
            )
            | inl c ↦ elim (open_cancel-cases user_id ctx e o c) [
              | inl (x, t, b) ↦ inl (x, t, inr (booking, e, inr (s, b)))
              | inr d ↦ inr (booking, e, (==_iff _ _).0 o, inr d)
            ]
          ]
        ]
      ]
    ]
