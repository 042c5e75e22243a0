-- ===== src/Bookings/Submission.antt =====
-- src/modules/bookings/bookings.service.ts, `submitPayment`.
use uza_mobility_bn.Base.{
  ℕ, Bool, Option, none, some, String, List, [], ◌∷◌, ◌&&◌, ◌||◌, not, coalesce, get_or, is_some,
}
use uza_mobility_bn.Base.Text.{◌<>◌, ◌===◌, includes, name_of}
use uza_mobility_bn.Js.{Js}
use uza_mobility_bn.Db.{Prisma}
use uza_mobility_bn.Schema.Commerce.{VehicleBookingStatus, vehicle_booking_status_enum}
use uza_mobility_bn.Schema.Requests.{NotificationType}
use uza_mobility_bn.Schema.Rows.{VehicleBooking, PaymentProof, Json}
use uza_mobility_bn.Schema.World.{World}
use uza_mobility_bn.Api.{Action, bad_request, ◌>>=◌, ◌>>◌, gets, modify, throw_if}
use uza_mobility_bn.Platform.Settings.{get_frozen_rate, filled}
use uza_mobility_bn.Platform.Uploads.{file_type_of}
use uza_mobility_bn.Platform.Notifications.{Message, send_to_role_names}
use uza_mobility_bn.Platform.Audit.{RequestAuditContext, record_activity}
use uza_mobility_bn.Bookings.Statuses.{booking_payable_statuses, get_own_booking}

module _ ⦃N : Js⦄ where
  open N use {Num, to_lower, last_path_part}

  pub record SubmitBookingPaymentDto : Type 0 where
    pub amount_paid : Num
    pub bank_name : Option String
    pub transfer_reference : Option String
    pub payment_date : Option ℕ
    pub sender_name : Option String
    pub notes : Option String

  -- A payable booking, or a rejected one with a reason.
  unfoldable pub can_submit_payment : VehicleBooking → Bool
  can_submit_payment booking =
      includes booking_payable_statuses booking.status
      || booking.status === VehicleBookingStatus.rejected
        && is_some (filled booking.rejection_reason)

  abbrev pub with_payment : SubmitBookingPaymentDto → Num → ℕ → VehicleBooking → VehicleBooking
  with_payment dto rate now booking = record booking {
    amount_paid = some dto.amount_paid;
    currency = "RWF";
    bank_name = coalesce dto.bank_name booking.bank_name;
    transfer_reference = some (get_or dto.transfer_reference booking.payment_reference);
    payment_date = some (get_or dto.payment_date now);
    sender_name = coalesce dto.sender_name booking.sender_name;
    notes = coalesce dto.notes booking.notes;
    exchange_rate_used = some rate;
    status = VehicleBookingStatus.under_verification;
    rejection_reason = none;
  }

  booking_proof : ℕ → String → PaymentProof
  unfolding file_type_of
  booking_proof booking_id url = record {
    owner_id = booking_id;
    file_url = url;
    file_type = file_type_of (to_lower url);
    file_name = last_path_part url;
  }

  payment_submitted : ℕ → VehicleBooking → Message
  payment_submitted booking_id booking = record {
    kind = NotificationType.system_alert;
    title = "Booking payment submitted";
    body = "Booking " <> booking.booking_number <> " payment proof submitted.";
    metadata = ("bookingId", Json.id booking_id) ∷ ("listingId", Json.id booking.listing_id) ∷ [];
  }

  module _ ⦃P : Prisma⦄ where
    open P use {Table, find_unique, insert, update}

    -- `bookingPaymentProof.createMany`
    pub add_booking_proofs : ℕ → List String → Table PaymentProof → Table PaymentProof
    unfolding booking_proof
    add_booking_proofs booking_id [] t = t
    add_booking_proofs booking_id (url ∷ urls) t =
        add_booking_proofs booking_id urls (insert t (booking_proof booking_id url))

    unfoldable pub submit_booking_payment :
        ℕ
        → ℕ
        → SubmitBookingPaymentDto
        → List String
        → RequestAuditContext
        → Action World (Option VehicleBooking)
    unfolding can_submit_payment payment_submitted send_to_role_names record_activity
    submit_booking_payment user_id booking_id dto proof_urls ctx = do
      booking ← get_own_booking user_id booking_id
      throw_if (not (can_submit_payment booking))
          (bad_request ("Cannot submit payment for booking in status " <> name_of booking.status))
      rate ← gets (λ w. get_frozen_rate w)
      now ← gets (λ w. w.now)
      modify (λ w. record w {
        booking_proofs = add_booking_proofs booking_id proof_urls w.booking_proofs;
        bookings = update w.bookings booking_id (with_payment dto rate now);
      })
      send_to_role_names ("FINANCE_ADMIN" ∷ "SUPER_ADMIN" ∷ [])
          (payment_submitted booking_id booking)
      record_activity user_id "bookings:payment-submitted" "VehicleBooking" (some booking_id) ctx
          none
      gets (λ w. find_unique w.bookings booking_id)
