-- ===== src/Bookings/Cancellation.antt =====
-- src/modules/bookings/bookings.service.ts, `cancelBookingByBuyer`.
use uza_mobility_bn.Base.{ℕ, Bool, true, false, Option, some, [], ◌∷◌, not, is_some}
use uza_mobility_bn.Base.Text.{◌<>◌, ◌===◌, includes}
use uza_mobility_bn.Js.{Js}
use uza_mobility_bn.Db.{Prisma}
use uza_mobility_bn.Schema.Commerce.{VehicleBookingStatus, vehicle_booking_status_enum}
use uza_mobility_bn.Schema.Requests.{NotificationType}
use uza_mobility_bn.Schema.Rows.{VehicleBooking, Listing, User, Json}
use uza_mobility_bn.Schema.World.{World}
use uza_mobility_bn.Api.{
  Action, bad_request, internal, ◌>>=◌, ◌>>◌, gets, modify, throw_if, require,
}
use uza_mobility_bn.Platform.Notifications.{Message, send, send_to_role_names}
use uza_mobility_bn.Platform.Audit.{RequestAuditContext, record_activity}
use uza_mobility_bn.Bookings.Statuses.{
  buyer_cancellable_booking_statuses, get_own_booking, proof_of_booking,
}

module _ ⦃N : Js⦄ where
  open N use {trim}

  abbrev pub booking_with_status : VehicleBookingStatus → VehicleBooking → VehicleBooking
  booking_with_status status booking = record booking { status = status }

  booking_cancelled : ℕ → VehicleBooking → Message
  booking_cancelled booking_id booking = record {
    kind = NotificationType.system_alert;
    title = "Booking cancelled";
    body =
        "Booking " <> booking.booking_number
        <> " was cancelled. You can book another vehicle when ready.";
    metadata = ("bookingId", Json.id booking_id) ∷ ("listingId", Json.id booking.listing_id) ∷ [];
  }

  buyer_cancelled_booking : ℕ → VehicleBooking → User → Listing → Message
  buyer_cancelled_booking booking_id booking user listing = record {
    kind = NotificationType.system_alert;
    title = "Buyer cancelled vehicle booking";
    body =
        trim (user.first_name <> " " <> user.last_name)
        <> " cancelled booking "
        <> booking.booking_number
        <> " for "
        <> listing.listing_title
        <> ".";
    metadata =
        ("bookingId", Json.id booking_id)
        ∷ ("userId", Json.id booking.user_id)
        ∷ ("listingId", Json.id booking.listing_id)
        ∷ [];
  }

  module _ ⦃P : Prisma⦄ where
    open P use {find_unique, update}

    -- The part after the check whether the booking is cancelled already.
    cancel_open :
        ℕ → ℕ → VehicleBooking → RequestAuditContext → Action World (Option VehicleBooking)
    unfolding booking_cancelled buyer_cancelled_booking send send_to_role_names record_activity
    cancel_open user_id booking_id booking ctx = do
      throw_if (not (includes buyer_cancellable_booking_statuses booking.status))
          (bad_request "This booking can only be cancelled before payment proof is submitted")
      proof ← gets (proof_of_booking booking_id)
      throw_if (is_some proof) (bad_request "Cannot cancel after payment proof has been submitted")
      joined_listing ← gets (λ w. find_unique w.listings booking.listing_id)
      listing ← require joined_listing (internal "the foreign key of the listing")
      joined_user ← gets (λ w. find_unique w.users booking.user_id)
      user ← require joined_user (internal "the foreign key of the user")
      modify (λ w. record w {
        bookings =
            update w.bookings booking_id (booking_with_status VehicleBookingStatus.cancelled);
      })
      send user_id (booking_cancelled booking_id booking)
      send_to_role_names ("FINANCE_ADMIN" ∷ "SUPER_ADMIN" ∷ [])
          (buyer_cancelled_booking booking_id booking user listing)
      record_activity user_id "bookings:buyer-cancelled" "VehicleBooking" (some booking_id) ctx (
          some (
            ("email", Json.nullable ctx.actor_email)
            ∷ ("bookingNumber", Json.text booking.booking_number)
            ∷ []))
      gets (λ w. find_unique w.bookings booking_id)

    abbrev unless_cancelled :
        Bool
        → Action World (Option VehicleBooking)
        → Action World (Option VehicleBooking)
        → Action World (Option VehicleBooking)
    unless_cancelled true now later = now
    unless_cancelled false now later = later

    unfoldable pub cancel_booking_by_buyer :
        ℕ → ℕ → RequestAuditContext → Action World (Option VehicleBooking)
    unfolding cancel_open
    cancel_booking_by_buyer user_id booking_id ctx = do
      booking ← get_own_booking user_id booking_id
      unless_cancelled (booking.status === VehicleBookingStatus.cancelled)
          (gets (λ w. find_unique w.bookings booking_id))
          (cancel_open user_id booking_id booking ctx)
