-- ===== src/Bookings/Steps.antt =====
-- What one call of the booking service may do to the row of a booking, and histories of such calls.
pub mod Effects
pub mod Invariant
pub mod Final
use uza_mobility_bn.Base.{ℕ, ◌≡◌, ◌≢◌, String, List, Option, none, some, true}
use uza_mobility_bn.Base.Text.{includes}
use uza_mobility_bn.Js.{Js}
use uza_mobility_bn.Db.{Prisma}
use uza_mobility_bn.Schema.Commerce.{VehicleBookingStatus, vehicle_booking_status_enum}
use uza_mobility_bn.Schema.Rows.{VehicleBooking}
use uza_mobility_bn.Schema.World.{World}
use uza_mobility_bn.Platform.Audit.{RequestAuditContext}
use uza_mobility_bn.Bookings.Statuses.{active_booking_statuses}
use uza_mobility_bn.Bookings.Request.{RequestVehicleBookingDto, request_booking}
use uza_mobility_bn.Bookings.Fee.{UpdateBookingFeeDto, with_fee, update_booking_fee}
use uza_mobility_bn.Bookings.Submission.{
  SubmitBookingPaymentDto, can_submit_payment, with_payment, submit_booking_payment,
}
use uza_mobility_bn.Bookings.Cancellation.{booking_with_status, cancel_booking_by_buyer}
use uza_mobility_bn.Bookings.Verification.{
  awaits_verdict, as_confirmed, as_rejected, confirm_booking, reject_booking,
}

module _ ⦃N : Js⦄ where
  open N use {Num}

  module _ ⦃P : Prisma⦄ where
    open P use {Table, find_unique, new_id}

    -- The buyer has no active booking of the listing.
    abbrev pub NoneActive : Table VehicleBooking → ℕ → ℕ → Type 0
    NoneActive t user_id listing_id =
        (i : ℕ) (b : VehicleBooking)
        → find_unique t i ≡ some b
        → b.user_id ≡ user_id
        → b.listing_id ≡ listing_id
        → includes active_booking_statuses b.status ≢ true

    -- From the row `j` of a table before a call to that row after it.
    pub data BookingStep (t : Table VehicleBooking) (j : ℕ)
        : Option VehicleBooking → Option VehicleBooking → Type 0 where
      same : (row : Option VehicleBooking) → BookingStep t j row row
      requested :
          (b : VehicleBooking)
          → b.status ≡ VehicleBookingStatus.awaiting_payment
          → new_id t ≡ j
          → NoneActive t b.user_id b.listing_id
          → BookingStep t j none (some b)
      repriced :
          (b : VehicleBooking) (fee rate : Num)
          → b.status ≡ VehicleBookingStatus.awaiting_payment
          → BookingStep t j (some b) (some (with_fee fee rate b))
      paid :
          (b : VehicleBooking) (dto : SubmitBookingPaymentDto) (rate : Num) (now : ℕ)
          → can_submit_payment b ≡ true
          → BookingStep t j (some b) (some (with_payment dto rate now b))
      confirmed :
          (b : VehicleBooking) (admin now : ℕ)
          → awaits_verdict b.status ≡ true
          → BookingStep t j (some b) (some (as_confirmed admin now b))
      rejected :
          (b : VehicleBooking) (reason : Option String) (admin now : ℕ)
          → awaits_verdict b.status ≡ true
          → BookingStep t j (some b) (some (as_rejected reason admin now b))
      cancelled :
          (b : VehicleBooking)
          → b.status ≡ VehicleBookingStatus.awaiting_payment
          → BookingStep t j (some b) (some (booking_with_status VehicleBookingStatus.cancelled b))

    -- A step at the row of every booking.
    abbrev pub BookingsStep : Table VehicleBooking → Table VehicleBooking → Type 0
    BookingsStep t t' = (j : ℕ) → BookingStep t j (find_unique t j) (find_unique t' j)

    pub data BookingCall : Type 0 where
      request : ℕ → RequestVehicleBookingDto → RequestAuditContext → BookingCall
      set_fee : ℕ → ℕ → UpdateBookingFeeDto → RequestAuditContext → BookingCall
      pay : ℕ → ℕ → SubmitBookingPaymentDto → List String → RequestAuditContext → BookingCall
      cancel : ℕ → ℕ → RequestAuditContext → BookingCall
      confirm : ℕ → ℕ → RequestAuditContext → BookingCall
      reject : ℕ → ℕ → Option String → RequestAuditContext → BookingCall

    unfoldable pub run_booking_call : BookingCall → World → World
    run_booking_call (request user dto ctx) w = (request_booking user dto ctx w).1
    run_booking_call (set_fee admin id dto ctx) w = (update_booking_fee admin id dto ctx w).1
    run_booking_call (pay user id dto urls ctx) w =
        (submit_booking_payment user id dto urls ctx w).1
    run_booking_call (cancel user id ctx) w = (cancel_booking_by_buyer user id ctx w).1
    run_booking_call (confirm admin id ctx) w = (confirm_booking admin id ctx w).1
    run_booking_call (reject admin id reason ctx) w = (reject_booking admin id reason ctx w).1

    -- Calls of the booking service in any order, and between them whatever leaves the bookings alone.
    pub data BookingHistory (start : World) : World → Type 1 where
      begin : BookingHistory start start
      call :
          {w : World}
          → BookingHistory start w
          → (c : BookingCall) → BookingHistory start (run_booking_call c w)
      elsewhere :
          {w w' : World}
          → BookingHistory start w
          → w'.bookings ≡ w.bookings
          → BookingHistory start w'
