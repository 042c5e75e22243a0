-- ===== src/Tests/Bookings.antt =====
-- The theorems on bookings at concrete data.
use uza_mobility_bn.Base.{◌≡◌, refl, some, none, [], ◌∷◌, arith}
use uza_mobility_bn.Schema.Catalog.{ListingStatus}
use uza_mobility_bn.Schema.Commerce.{VehicleBookingStatus}
use uza_mobility_bn.Schema.World.{World}
use uza_mobility_bn.Bookings.Request.{RequestVehicleBookingDto}
use uza_mobility_bn.Bookings.Submission.{SubmitBookingPaymentDto}
use uza_mobility_bn.Bookings.Outcome.{RequestOutcome, request_booking-cases}
use uza_mobility_bn.Bookings.Outcome.Cancelled.{CancelOutcome, cancel-cases}
use uza_mobility_bn.Bookings.Steps.{begin, call, run_booking_call, request, pay, cancel, confirm}
use uza_mobility_bn.Bookings.Steps.Invariant.{AllValid, OneActiveBooking, bookings_valid}
use uza_mobility_bn.Bookings.Steps.Final.{booking_final}
use uza_mobility_bn.Tests.Natural.{natural, natural_laws}
use uza_mobility_bn.Tests.Memory.{memory, memory_laws}
use uza_mobility_bn.Tests.Data.{world, booking_at, context}

abbrev dto : RequestVehicleBookingDto
dto = record { listing_id = 0; notes = none }

abbrev fee_paid : SubmitBookingPaymentDto
fee_paid = record {
  amount_paid = 736414;
  bank_name = none;
  transfer_reference = none;
  payment_date = none;
  sender_name = none;
  notes = none;
}

abbrev open_world : World
open_world = world ListingStatus.published [] [] [] []

abbrev booked : World
booked =
    world ListingStatus.published [] [] [] (booking_at VehicleBookingStatus.awaiting_payment ∷ [])

abbrev settled : World
settled = world ListingStatus.published [] [] [] (booking_at VehicleBookingStatus.confirmed ∷ [])

no_bookings-AllValid : AllValid []
no_bookings-AllValid j b e = absurd (ground (arith, e))

no_bookings-OneActiveBooking : OneActiveBooking []
no_bookings-OneActiveBooking i j a b e f u l x y = absurd (ground (arith, e))

request_booking-cases_example : RequestOutcome 0 dto context open_world
request_booking-cases_example = request_booking-cases 0 dto context open_world

cancel-cases_example : CancelOutcome 0 booked 0 context
cancel-cases_example = cancel-cases 0 booked 0 context

-- A booking that is requested, paid and confirmed.
abbrev confirmed_world : World
confirmed_world = run_booking_call (confirm 7 0 context) (
    run_booking_call (pay 0 0 fee_paid [] context)
      (run_booking_call (request 0 dto context) open_world))

bookings_valid_example :
    AllValid confirmed_world.bookings × OneActiveBooking confirmed_world.bookings
bookings_valid_example =
    bookings_valid open_world no_bookings-AllValid no_bookings-OneActiveBooking (
      call (call (call begin (request 0 dto context)) (pay 0 0 fee_paid [] context))
        (confirm 7 0 context))

booking_final_example :
    memory.find_unique
      (run_booking_call
        (cancel 0 0 context)
        (run_booking_call (pay 0 0 fee_paid [] context) settled)).bookings
      0
    ≡ some (booking_at VehicleBookingStatus.confirmed)
booking_final_example =
    booking_final settled 0 {b = booking_at VehicleBookingStatus.confirmed} refl refl
      (call (call begin (pay 0 0 fee_paid [] context)) (cancel 0 0 context))
