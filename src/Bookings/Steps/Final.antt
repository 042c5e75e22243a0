-- ===== src/Bookings/Steps/Final.antt =====
-- A booking that is confirmed or cancelled stays as it is.
use uza_mobility_bn.Base.{ℕ, ◌≡◌, Option, some, Bool, true, arith, ◌||◌}
use uza_mobility_bn.Base.Text.{◌===◌}
use uza_mobility_bn.Js.{Js}
use uza_mobility_bn.Db.{Prisma, PrismaLaws}
use uza_mobility_bn.Schema.Commerce.{VehicleBookingStatus, vehicle_booking_status_enum}
use uza_mobility_bn.Schema.Rows.{VehicleBooking}
use uza_mobility_bn.Schema.World.{World}
use uza_mobility_bn.Bookings.Submission.{can_submit_payment}
use uza_mobility_bn.Bookings.Steps.{
  BookingStep, same, requested, repriced, paid, confirmed, rejected, cancelled, BookingHistory,
  begin, call, elsewhere,
}
use uza_mobility_bn.Bookings.Steps.Effects.{call-BookingsStep}

module _ ⦃N : Js⦄ where
  abbrev pub is_final : VehicleBooking → Bool
  is_final b =
      b.status === VehicleBookingStatus.confirmed || b.status === VehicleBookingStatus.cancelled

  module _ ⦃P : Prisma⦄ where
    open P use {Table, find_unique}

    step-is_final :
        {t : Table VehicleBooking} {j : ℕ} {r r' : Option VehicleBooking}
        → BookingStep t j r r'
        → (b : VehicleBooking) → r ≡ some b
        → is_final b ≡ true
        → r' ≡ some b
    unfolding can_submit_payment
    step-is_final (same row) b e f = e
    step-is_final (requested x awaiting new fresh) b e f = absurd (ground (arith, e))
    step-is_final (repriced x fee rate awaiting) b e f = absurd (ground (arith, e, f, awaiting))
    step-is_final (paid x dto rate now payable) b e f = absurd (ground (arith, e, f, payable))
    step-is_final (confirmed x admin now awaits) b e f = absurd (ground (arith, e, f, awaits))
    step-is_final (rejected x reason admin now awaits) b e f = absurd (ground (arith, e, f, awaits))
    step-is_final (cancelled x awaiting) b e f = absurd (ground (arith, e, f, awaiting))

    module _ ⦃L : PrismaLaws⦄ where
      -- Through every history of calls of the booking service, in any order, with anything between
      -- them that leaves the bookings alone, a booking that is confirmed or cancelled keeps its row.
      pub booking_final :
          (start : World) {w : World} (booking_id : ℕ) {b : VehicleBooking}
          → find_unique start.bookings booking_id ≡ some b
          → is_final b ≡ true
          → BookingHistory start w
          → find_unique w.bookings booking_id ≡ some b
      booking_final start booking_id found final begin = found
      booking_final start booking_id {b} found final (call {w = before} h c) =
          step-is_final (call-BookingsStep c before booking_id) b
            (booking_final start booking_id found final h) final
      booking_final start booking_id found final (elsewhere h e) =
          rw e (booking_final start booking_id found final h)
