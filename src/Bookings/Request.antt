-- ===== src/Bookings/Request.antt =====
-- src/modules/bookings/bookings.service.ts, `requestBooking`. The PDF and the e-mail that follow
-- the creation are taken to succeed.
use uza_mobility_bn.Base.{ℕ, Bool, Option, none, some, String, [], ◌∷◌, ◌==◌, ◌&&◌, not, is_some}
use uza_mobility_bn.Base.Text.{◌<>◌, ◌===◌, includes}
use uza_mobility_bn.Js.{Js}
use uza_mobility_bn.Db.{Prisma}
use uza_mobility_bn.Schema.Catalog.{ListingStatus, listing_status_enum}
use uza_mobility_bn.Schema.Commerce.{VehicleBookingStatus, vehicle_booking_status_enum}
use uza_mobility_bn.Schema.Requests.{NotificationType}
use uza_mobility_bn.Schema.Rows.{User, BuyerProfile, VehicleBooking, Json}
use uza_mobility_bn.Schema.World.{World}
use uza_mobility_bn.Api.{
  Action, bad_request, not_found, ◌>>=◌, ◌>>◌, pure, gets, modify, throw_if, require,
}
use uza_mobility_bn.Platform.Money.{format_money_rwf, rwf_to_usd_amount}
use uza_mobility_bn.Platform.Reference.{generate_reference_number, uzm_bkg, uzm_bkg_pay}
use uza_mobility_bn.Platform.Settings.{get_frozen_rate, get_booking_fee_rwf}
use uza_mobility_bn.Platform.Notifications.{Message, send}
use uza_mobility_bn.Platform.Audit.{RequestAuditContext, record_activity}
use uza_mobility_bn.Invoices.Statuses.{add_days}
use uza_mobility_bn.Invoices.Request.{is_active_for}
use uza_mobility_bn.Bookings.Statuses.{active_booking_statuses, booking_validity_days}

abbrev pub profile_of : Option User → Option BuyerProfile
profile_of none = none
profile_of (some user) = user.buyer_profile

pub record RequestVehicleBookingDto : Type 0 where
  pub listing_id : ℕ
  pub notes : Option String

module _ ⦃N : Js⦄ where
  booking_created : VehicleBooking → ℕ → Message
  booking_created booking booking_id = record {
    kind = NotificationType.invoice_issued;
    title = "Vehicle booking created";
    body =
        "Pay the booking fee of "
        <> format_money_rwf booking.booking_fee_rwf
        <> " using reference "
        <> booking.payment_reference
        <> ". Your booking quote PDF is attached.";
    metadata = ("bookingId", Json.id booking_id) ∷ ("listingId", Json.id booking.listing_id) ∷ [];
  }

  module _ ⦃P : Prisma⦄ where
    open P use {find_unique, find_first, new_id, insert}

    -- The buyer's bookings of the listing that still hold it.
    abbrev pub is_active_booking : ℕ → ℕ → ℕ → VehicleBooking → Bool
    is_active_booking user_id listing_id _ booking =
        booking.user_id == user_id
        && booking.listing_id == listing_id
        && includes active_booking_statuses booking.status

    -- The row that the call creates, as it finds the data base.
    unfoldable pub new_booking : ℕ → RequestVehicleBookingDto → World → VehicleBooking
    unfolding get_booking_fee_rwf rwf_to_usd_amount get_frozen_rate
    new_booking user_id dto w =
        let fee_rwf = get_booking_fee_rwf w in
        record {
          booking_number = generate_reference_number w uzm_bkg;
          payment_reference = generate_reference_number w uzm_bkg_pay;
          listing_id = dto.listing_id;
          user_id = user_id;
          booking_fee_usd = rwf_to_usd_amount fee_rwf (get_frozen_rate w);
          booking_fee_rwf = some fee_rwf;
          currency = "RWF";
          status = VehicleBookingStatus.awaiting_payment;
          amount_paid = none;
          bank_name = none;
          transfer_reference = none;
          payment_date = none;
          sender_name = none;
          notes = dto.notes;
          exchange_rate_used = none;
          rejection_reason = none;
          valid_until = some (add_days w.now booking_validity_days);
          confirmed_at = none;
          verified_by = none;
          verified_at = none;
        }

    unfoldable pub request_booking :
        ℕ → RequestVehicleBookingDto → RequestAuditContext → Action World (ℕ × VehicleBooking)
    unfolding booking_created send record_activity
    request_booking user_id dto ctx = do
      found_user ← gets (λ w. find_unique w.users user_id)
      profile ←
          require (profile_of found_user)
            (bad_request "Complete your buyer profile before booking a vehicle")
      found_listing ← gets (λ w. find_unique w.listings dto.listing_id)
      listing ← require found_listing (not_found "Listing not found")
      throw_if (not (listing.status === ListingStatus.published))
          (bad_request "This vehicle is not available to book")
      existing ← gets (λ w. find_first w.bookings (is_active_booking user_id dto.listing_id))
      throw_if (is_some existing)
          (bad_request "You already have an active booking for this vehicle")
      invoiced ← gets (λ w. find_first w.invoices (is_active_for user_id dto.listing_id))
      throw_if (is_some invoiced) (
          bad_request
            "You already have an active invoice for this vehicle. Complete or cancel it before booking.")
      booking ← gets (new_booking user_id dto)
      booking_id ← gets (λ w. new_id w.bookings)
      modify (λ w. record w { bookings = insert w.bookings booking })
      send user_id (booking_created booking booking_id)
      record_activity user_id "bookings:requested" "VehicleBooking" (some booking_id) ctx (
          some
            (("email", Json.nullable ctx.actor_email) ∷ ("listingId", Json.id dto.listing_id) ∷ []))
      pure (booking_id, booking)
