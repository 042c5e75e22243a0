-- ===== src/Bookings/Statuses.antt =====
-- src/modules/bookings/booking.constants.ts, and the look-ups that the service's calls share.
use uza_mobility_bn.Base.{ℕ, Option, List, [], ◌∷◌, ◌==◌, not}
use uza_mobility_bn.Js.{Js}
use uza_mobility_bn.Db.{Prisma}
use uza_mobility_bn.Schema.Commerce.{VehicleBookingStatus}
use uza_mobility_bn.Schema.Rows.{VehicleBooking, PaymentProof}
use uza_mobility_bn.Schema.World.{World}
use uza_mobility_bn.Api.{Action, not_found, forbidden, ◌>>=◌, ◌>>◌, pure, gets, throw_if, require}

abbrev pub active_booking_statuses : List VehicleBookingStatus
active_booking_statuses =
    VehicleBookingStatus.awaiting_payment ∷ VehicleBookingStatus.payment_submitted
    ∷ VehicleBookingStatus.under_verification ∷ VehicleBookingStatus.confirmed ∷ []

abbrev pub booking_payable_statuses : List VehicleBookingStatus
booking_payable_statuses = VehicleBookingStatus.awaiting_payment ∷ []

abbrev pub admin_editable_booking_fee_statuses : List VehicleBookingStatus
admin_editable_booking_fee_statuses = VehicleBookingStatus.awaiting_payment ∷ []

abbrev pub buyer_cancellable_booking_statuses : List VehicleBookingStatus
buyer_cancellable_booking_statuses = VehicleBookingStatus.awaiting_payment ∷ []

abbrev pub booking_validity_days : ℕ
booking_validity_days = 5

module _ ⦃N : Js⦄ ⦃P : Prisma⦄ where
  open P use {find_unique, find_first}

  -- `vehicleBooking.findUnique({ where: { id } })`, or the exception
  abbrev pub get_booking_or_throw : ℕ → Action World VehicleBooking
  get_booking_or_throw booking_id = do
    found ← gets (λ w. find_unique w.bookings booking_id)
    require found (not_found "Booking not found")

  -- the same for the buyer who owns it, which is `findByIdForUser`
  abbrev pub get_own_booking : ℕ → ℕ → Action World VehicleBooking
  get_own_booking user_id booking_id = do
    booking ← get_booking_or_throw booking_id
    throw_if (not (booking.user_id == user_id)) (forbidden "You do not own this booking")
    pure booking

  abbrev pub proof_of_booking : ℕ → World → Option (ℕ × PaymentProof)
  proof_of_booking booking_id w = find_first w.booking_proofs (λ _ p. p.owner_id == booking_id)
