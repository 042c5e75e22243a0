-- ===== src/Bookings/Verification.antt =====
-- src/modules/bookings/bookings.service.ts: `confirmBooking`, `rejectBooking`.
use uza_mobility_bn.Base.{ℕ, Bool, Option, none, some, String, [], ◌∷◌, ◌||◌, not, get_or}
use uza_mobility_bn.Base.Text.{◌<>◌, ◌===◌, name_of}
use uza_mobility_bn.Js.{Js}
use uza_mobility_bn.Db.{Prisma}
use uza_mobility_bn.Db.Columns.{given_option}
use uza_mobility_bn.Schema.Commerce.{VehicleBookingStatus, vehicle_booking_status_enum}
use uza_mobility_bn.Schema.Requests.{NotificationType}
use uza_mobility_bn.Schema.Rows.{VehicleBooking, Listing, Json}
use uza_mobility_bn.Schema.World.{World}
use uza_mobility_bn.Api.{
  Action, bad_request, internal, ◌>>=◌, ◌>>◌, gets, modify, throw_if, require,
}
use uza_mobility_bn.Platform.Notifications.{Message, send}
use uza_mobility_bn.Platform.Audit.{RequestAuditContext, record_activity}
use uza_mobility_bn.Bookings.Statuses.{get_booking_or_throw}

-- `BOOKING_VERIFY_STATUSES`, as the two calls spell it out
abbrev pub awaits_verdict : VehicleBookingStatus → Bool
awaits_verdict s =
    s === VehicleBookingStatus.under_verification || s === VehicleBookingStatus.payment_submitted

module _ ⦃N : Js⦄ where
  abbrev pub as_confirmed : ℕ → ℕ → VehicleBooking → VehicleBooking
  as_confirmed admin now booking = record booking {
    status = VehicleBookingStatus.confirmed;
    confirmed_at = some now;
    verified_by = some admin;
    verified_at = some now;
  }

  abbrev pub as_rejected : Option String → ℕ → ℕ → VehicleBooking → VehicleBooking
  as_rejected reason admin now booking = record booking {
    status = VehicleBookingStatus.awaiting_payment;
    rejection_reason = given_option reason booking.rejection_reason;
    verified_by = some admin;
    verified_at = some now;
  }

  booking_confirmed : ℕ → VehicleBooking → Listing → Message
  booking_confirmed booking_id booking listing = record {
    kind = NotificationType.payment_confirmed;
    title = "Vehicle booking confirmed";
    body = "Your booking for " <> listing.listing_title <> " is confirmed.";
    metadata = ("bookingId", Json.id booking_id) ∷ ("listingId", Json.id booking.listing_id) ∷ [];
  }

  booking_rejected : ℕ → Option String → Message
  booking_rejected booking_id reason = record {
    kind = NotificationType.payment_rejected;
    title = "Booking payment not verified";
    body =
        get_or reason "Your booking payment could not be verified."
        <> " Please resubmit payment from My bookings.";
    metadata = ("bookingId", Json.id booking_id) ∷ ("reason", Json.nullable reason) ∷ [];
  }

  module _ ⦃P : Prisma⦄ where
    open P use {find_unique, update}

    unfoldable pub confirm_booking :
        ℕ → ℕ → RequestAuditContext → Action World (Option VehicleBooking)
    unfolding booking_confirmed send record_activity
    confirm_booking admin booking_id ctx = do
      booking ← get_booking_or_throw booking_id
      throw_if (not (awaits_verdict booking.status))
          (bad_request ("Cannot confirm booking in status " <> name_of booking.status))
      joined ← gets (λ w. find_unique w.listings booking.listing_id)
      listing ← require joined (internal "the foreign key of the listing")
      now ← gets (λ w. w.now)
      modify (λ w. record w { bookings = update w.bookings booking_id (as_confirmed admin now) })
      send booking.user_id (booking_confirmed booking_id booking listing)
      record_activity admin "bookings:confirmed" "VehicleBooking" (some booking_id) ctx none
      gets (λ w. find_unique w.bookings booking_id)

    unfoldable pub reject_booking :
        ℕ → ℕ → Option String → RequestAuditContext → Action World (Option VehicleBooking)
    unfolding booking_rejected send record_activity
    reject_booking admin booking_id reason ctx = do
      booking ← get_booking_or_throw booking_id
      throw_if (not (awaits_verdict booking.status))
          (bad_request ("Cannot reject booking in status " <> name_of booking.status))
      now ← gets (λ w. w.now)
      modify
          (λ w. record w { bookings = update w.bookings booking_id (as_rejected reason admin now) })
      send booking.user_id (booking_rejected booking_id reason)
      record_activity admin "bookings:rejected" "VehicleBooking" (some booking_id) ctx none
      gets (λ w. find_unique w.bookings booking_id)
