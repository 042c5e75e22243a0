-- ===== src/Bookings/Fee.antt =====
-- src/modules/bookings/bookings.service.ts, `updateBookingFee`.
use uza_mobility_bn.Base.{
  ℕ, Option, none, some, [], ◌∷◌, not, coalesce, get_or, is_some, if◌then◌else◌,
}
use uza_mobility_bn.Base.Text.{◌<>◌, includes}
use uza_mobility_bn.Js.{Js}
use uza_mobility_bn.Db.{Prisma}
use uza_mobility_bn.Schema.Commerce.{vehicle_booking_status_enum}
use uza_mobility_bn.Schema.Requests.{NotificationType}
use uza_mobility_bn.Schema.Rows.{VehicleBooking, Listing, Json}
use uza_mobility_bn.Schema.World.{World}
use uza_mobility_bn.Api.{
  Action, bad_request, internal, ◌>>=◌, ◌>>◌, gets, modify, throw_if, require,
}
use uza_mobility_bn.Platform.Money.{positive, format_money_rwf, rwf_to_usd_amount}
use uza_mobility_bn.Platform.Settings.{get_frozen_rate}
use uza_mobility_bn.Platform.Notifications.{Message, send}
use uza_mobility_bn.Platform.Audit.{RequestAuditContext, record_activity}
use uza_mobility_bn.Bookings.Statuses.{
  admin_editable_booking_fee_statuses, get_booking_or_throw, proof_of_booking,
}

module _ ⦃N : Js⦄ where
  open N use {Num, mul, round}

  pub record UpdateBookingFeeDto : Type 0 where
    pub booking_fee_usd : Option Num
    pub booking_fee_rwf : Option Num

  from_usd : Option Num → Num → Option Num
  from_usd none rate = none
  from_usd (some fee) rate = some (round (mul fee rate))

  positive_fee : Option Num → Option Num
  positive_fee none = none
  positive_fee (some fee) = if positive fee then some fee else none

  -- The new fee in Rwf, where there is one and it is positive.
  unfoldable pub next_fee_rwf : UpdateBookingFeeDto → Num → Option Num
  unfolding from_usd positive_fee
  next_fee_rwf dto rate =
      positive_fee (coalesce dto.booking_fee_rwf (from_usd dto.booking_fee_usd rate))

  abbrev pub with_fee : Num → Num → VehicleBooking → VehicleBooking
  with_fee fee rate booking = record booking {
    booking_fee_rwf = some fee;
    booking_fee_usd = rwf_to_usd_amount fee rate;
    currency = "RWF";
  }

  fee_updated : ℕ → Listing → Num → Num → Message
  fee_updated booking_id listing previous next = record {
    kind = NotificationType.system_alert;
    title = "Booking fee updated";
    body =
        "The booking fee for "
        <> listing.listing_title
        <> " was updated from "
        <> format_money_rwf (some previous)
        <> " to "
        <> format_money_rwf (some next)
        <> ".";
    metadata =
        ("bookingId", Json.id booking_id)
        ∷ ("previousFeeRwf", Json.amount previous)
        ∷ ("bookingFeeRwf", Json.amount next)
        ∷ [];
  }

  module _ ⦃P : Prisma⦄ where
    open P use {find_unique, update}

    unfoldable pub update_booking_fee :
        ℕ → ℕ → UpdateBookingFeeDto → RequestAuditContext → Action World (Option VehicleBooking)
    unfolding next_fee_rwf fee_updated send record_activity
    update_booking_fee admin booking_id dto ctx = do
      booking ← get_booking_or_throw booking_id
      throw_if (not (includes admin_editable_booking_fee_statuses booking.status))
          (bad_request "Booking fee can only be changed while awaiting payment")
      proof ← gets (proof_of_booking booking_id)
      throw_if (is_some proof)
          (bad_request "Booking fee cannot be changed after payment proof is submitted")
      rate ← gets (λ w. get_frozen_rate w)
      next ← require (next_fee_rwf dto rate) (bad_request "Booking fee in Rwf is required")
      joined ← gets (λ w. find_unique w.listings booking.listing_id)
      listing ← require joined (internal "the foreign key of the listing")
      modify (λ w. record w { bookings = update w.bookings booking_id (with_fee next rate) })
      let previous = get_or booking.booking_fee_rwf (round (mul booking.booking_fee_usd rate))
      send booking.user_id (fee_updated booking_id listing previous next)
      record_activity admin "bookings:fee-updated" "VehicleBooking" (some booking_id) ctx (
          some
            (("previousFeeRwf", Json.amount previous) ∷ ("bookingFeeRwf", Json.amount next) ∷ []))
      gets (λ w. find_unique w.bookings booking_id)
