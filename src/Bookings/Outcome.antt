-- ===== src/Bookings/Outcome.antt =====
-- What each call of the booking service does, on every branch: it throws and writes nothing, or it
-- makes its one change.
pub mod Cancelled
use uza_mobility_bn.Base.{
  ℕ, ◌≡◌, String, List, Option, none, some, Bool, true, arith, inl, inr, ◌⊎◌, Option-cases,
  Bool-cases, ==_refl, ◌==◌,
}
use uza_mobility_bn.Base.Text.{includes, ◌===◌, ◌<>◌, name_of}
use uza_mobility_bn.Js.{Js}
use uza_mobility_bn.Db.{Prisma, PrismaLaws}
use uza_mobility_bn.Schema.Catalog.{ListingStatus, listing_status_enum}
use uza_mobility_bn.Schema.Commerce.{VehicleBookingStatus, vehicle_booking_status_enum}
use uza_mobility_bn.Schema.Rows.{VehicleBooking}
use uza_mobility_bn.Schema.World.{World}
use uza_mobility_bn.Api.{ApiError, Action, ok, err, bad_request, not_found, forbidden, internal}
use uza_mobility_bn.Platform.Settings.{get_frozen_rate}
use uza_mobility_bn.Platform.Audit.{RequestAuditContext}
use uza_mobility_bn.Invoices.Request.{is_active_for}
use uza_mobility_bn.Bookings.Statuses.{
  proof_of_booking, buyer_cancellable_booking_statuses, admin_editable_booking_fee_statuses,
}
use uza_mobility_bn.Bookings.Request.{
  RequestVehicleBookingDto, profile_of, is_active_booking, new_booking, request_booking,
}
use uza_mobility_bn.Bookings.Fee.{UpdateBookingFeeDto, next_fee_rwf, with_fee, update_booking_fee}
use uza_mobility_bn.Bookings.Submission.{
  SubmitBookingPaymentDto, can_submit_payment, with_payment, submit_booking_payment,
}
use uza_mobility_bn.Bookings.Cancellation.{booking_with_status, cancel_booking_by_buyer}
use uza_mobility_bn.Bookings.Verification.{
  awaits_verdict, as_confirmed, as_rejected, confirm_booking, reject_booking,
}

module _ ⦃N : Js⦄ ⦃P : Prisma⦄ where
  open N use {Num}
  open P use {find_unique, find_first, insert, update, new_id}

  -- The call throws, and the data base is as it was.
  abbrev pub Throws : {A : Type 0} → Action World A → World → Type 0
  Throws call w = (e : ApiError) × (call w ≡ (err e, w))

  -- The call changes one booking, which passes a test, and returns it.
  abbrev pub Changes :
      Action World (Option VehicleBooking)
      → World
      → ℕ
      → (VehicleBooking → Bool)
      → (VehicleBooking → VehicleBooking)
      → Type 0
  Changes call w booking_id test change =
      (booking : VehicleBooking) × (find_unique w.bookings booking_id ≡ some booking)
      × (test booking ≡ true)
      × ((call w).0 ≡ ok (some (change booking)))
      × ((call w).1.bookings ≡ update w.bookings booking_id change)

  abbrev pub RequestOutcome : ℕ → RequestVehicleBookingDto → RequestAuditContext → World → Type 0
  RequestOutcome user_id dto ctx w =
      let call = request_booking user_id dto ctx in
      Throws call w
      ⊎ ((find_first w.bookings (is_active_booking user_id dto.listing_id) ≡ none)
          × (find_first w.invoices (is_active_for user_id dto.listing_id) ≡ none)
          × ((call w).0 ≡ ok (new_id w.bookings, new_booking user_id dto w))
          × ((call w).1.bookings ≡ insert w.bookings (new_booking user_id dto w)))

  -- A request throws and writes nothing; or the buyer had no active booking and no active invoice for
  -- the listing, and the call adds the new booking alone and returns it under its id.
  pub request_booking-cases :
      (user_id : ℕ) (dto : RequestVehicleBookingDto) (ctx : RequestAuditContext) (w : World)
      → RequestOutcome user_id dto ctx w
  unfolding request_booking
  request_booking-cases user_id dto ctx w =
      elim (Option-cases (profile_of (find_unique w.users user_id))) [
        | inl p ↦
            inl (bad_request "Complete your buyer profile before booking a vehicle", ground arith)
        | inr (profile, p) ↦ elim (Option-cases (find_unique w.listings dto.listing_id)) [
          | inl l ↦ inl (not_found "Listing not found", ground arith)
          | inr (listing, l) ↦ elim (Bool-cases (listing.status === ListingStatus.published)) [
            | inr s ↦ inl (bad_request "This vehicle is not available to book", ground arith)
            | inl s ↦
                elim (Option-cases
                  (find_first w.bookings (is_active_booking user_id dto.listing_id))) [
                    | inr (_, b) ↦ inl (
                      bad_request "You already have an active booking for this vehicle",
                      ground arith,
                    )
                    | inl b ↦
                        elim (Option-cases
                          (find_first w.invoices (is_active_for user_id dto.listing_id))) [
                            | inr (_, i) ↦ inl (
                              bad_request
                                  "You already have an active invoice for this vehicle. Complete or cancel it before booking.",
                              ground arith,
                            )
                            | inl i ↦ inr (b, i, ground arith, ground arith)
                          ]
                  ]
          ]
        ]
      ]

  module _ ⦃L : PrismaLaws⦄ (booking_id : ℕ) (w : World) where
    open L use {find-update}

    pub fee-cases :
        (admin : ℕ) (dto : UpdateBookingFeeDto) (ctx : RequestAuditContext)
        → let call = update_booking_fee admin booking_id dto ctx in
          Throws call w
          ⊎ ((fee : Num) × (next_fee_rwf dto (get_frozen_rate w) ≡ some fee)
              × Changes call w booking_id
                  (λ b. includes admin_editable_booking_fee_statuses b.status)
                  (with_fee fee (get_frozen_rate w)))
    unfolding update_booking_fee
    fee-cases admin dto ctx = elim (Option-cases (find_unique w.bookings booking_id)) [
      | inl e ↦ inl (not_found "Booking not found", ground arith)
      | inr (booking, e) ↦
          elim (Bool-cases (includes admin_editable_booking_fee_statuses booking.status)) [
            | inr c ↦
                inl (
                  bad_request "Booking fee can only be changed while awaiting payment",
                  ground arith,
                )
            | inl c ↦ elim (Option-cases (proof_of_booking booking_id w)) [
              | inr (_, p) ↦ inl (
                bad_request "Booking fee cannot be changed after payment proof is submitted",
                ground arith,
              )
              | inl p ↦ elim (Option-cases (next_fee_rwf dto (get_frozen_rate w))) [
                | inl n ↦ inl (bad_request "Booking fee in Rwf is required", ground arith)
                | inr (fee, n) ↦ elim (Option-cases (find_unique w.listings booking.listing_id)) [
                  | inl l ↦ inl (internal "the foreign key of the listing", ground arith)
                  | inr (listing, l) ↦ inr (
                    fee,
                    n,
                    (
                      booking,
                      e,
                      c,
                      ground (
                        arith,
                        ==_refl booking_id,
                        find-update w.bookings booking_id (with_fee fee (get_frozen_rate w))
                            booking_id,
                      ),
                      ground arith,
                    ),
                  )
                ]
              ]
            ]
          ]
    ]

    pub submit-cases :
        (user_id : ℕ) (dto : SubmitBookingPaymentDto) (urls : List String)
        (ctx : RequestAuditContext)
        → let call = submit_booking_payment user_id booking_id dto urls ctx in
          Throws call w
          ⊎ Changes call w booking_id can_submit_payment
              (with_payment dto (get_frozen_rate w) w.now)
    unfolding submit_booking_payment
    submit-cases user_id dto urls ctx = elim (Option-cases (find_unique w.bookings booking_id)) [
      | inl e ↦ inl (not_found "Booking not found", ground arith)
      | inr (booking, e) ↦ elim (Bool-cases (booking.user_id == user_id)) [
        | inr o ↦ inl (forbidden "You do not own this booking", ground arith)
        | inl o ↦ elim (Bool-cases (can_submit_payment booking)) [
          | inr c ↦ inl (
            bad_request ("Cannot submit payment for booking in status " <> name_of booking.status),
            ground arith,
          )
          | inl c ↦ inr (
            booking,
            e,
            c,
            ground (
              arith,
              ==_refl booking_id,
              find-update w.bookings booking_id (with_payment dto (get_frozen_rate w) w.now)
                  booking_id,
            ),
            ground arith,
          )
        ]
      ]
    ]

    pub confirm-cases :
        (admin : ℕ) (ctx : RequestAuditContext)
        → let call = confirm_booking admin booking_id ctx in
          Throws call w
          ⊎ Changes call w booking_id (λ b. awaits_verdict b.status) (as_confirmed admin w.now)
    unfolding confirm_booking
    confirm-cases admin ctx = elim (Option-cases (find_unique w.bookings booking_id)) [
      | inl e ↦ inl (not_found "Booking not found", ground arith)
      | inr (booking, e) ↦ elim (Bool-cases (awaits_verdict booking.status)) [
        | inr c ↦ inl (
          bad_request ("Cannot confirm booking in status " <> name_of booking.status),
          ground arith,
        )
        | inl c ↦ elim (Option-cases (find_unique w.listings booking.listing_id)) [
          | inl l ↦ inl (internal "the foreign key of the listing", ground arith)
          | inr (listing, l) ↦ inr (
            booking,
            e,
            c,
            ground (
              arith,
              ==_refl booking_id,
              find-update w.bookings booking_id (as_confirmed admin w.now) booking_id,
            ),
            ground arith,
          )
        ]
      ]
    ]

    pub reject-cases :
        (admin : ℕ) (reason : Option String) (ctx : RequestAuditContext)
        → let call = reject_booking admin booking_id reason ctx in
          Throws call w
          ⊎ Changes call w booking_id
              (λ b. awaits_verdict b.status)
              (as_rejected reason admin w.now)
    unfolding reject_booking
    reject-cases admin reason ctx = elim (Option-cases (find_unique w.bookings booking_id)) [
      | inl e ↦ inl (not_found "Booking not found", ground arith)
      | inr (booking, e) ↦ elim (Bool-cases (awaits_verdict booking.status)) [
        | inr c ↦ inl (
          bad_request ("Cannot reject booking in status " <> name_of booking.status),
          ground arith,
        )
        | inl c ↦ inr (
          booking,
          e,
          c,
          ground (
            arith,
            ==_refl booking_id,
            find-update w.bookings booking_id (as_rejected reason admin w.now) booking_id,
          ),
          ground arith,
        )
      ]
    ]
