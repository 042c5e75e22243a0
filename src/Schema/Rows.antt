-- ===== src/Schema/Rows.antt =====
-- Rows of the tables of prisma/schema.prisma. A row's id is its key in the table; dates are
-- milliseconds; a field that may be null is an `Option`; a column that none of the modelled
-- services reads or writes is left out.
use uza_mobility_bn.Base.{ℕ, String, Option, Bool, List}
use uza_mobility_bn.Js.{Js}
use uza_mobility_bn.Schema.Catalog.{SellerType, ListingStatus}
use uza_mobility_bn.Schema.Market.{SellerStatus}
use uza_mobility_bn.Schema.Commerce.{
  InvoiceType, InvoiceStatus, PaymentStatus, VehicleBookingStatus, OrderStatus,
}
use uza_mobility_bn.Schema.Requests.{NotificationType}

pub record BuyerProfile : Type 0 where
  pub buyer_type : String
  pub country : String

pub record User : Type 0 where
  pub first_name : String
  pub last_name : String
  pub email : String
  pub phone : Option String
  pub is_active : Bool
  pub deleted_at : Option ℕ
  pub roles : List String
  pub buyer_profile : Option BuyerProfile

pub record Seller : Type 0 where
  pub user_id : ℕ
  pub seller_type : SellerType
  pub status : SellerStatus
  pub business_name : String
  pub email : Option String
  pub city : Option String
  pub country : String
  pub is_verified : Bool
  pub verified_at : Option ℕ

pub record Listing : Type 0 where
  pub listing_title : String
  pub slug : String
  pub status : ListingStatus
  pub seller_type : SellerType
  pub seller_id : ℕ
  pub brand : String
  pub model : String
  pub trim : Option String
  pub manufacturing_year : ℕ
  pub condition : String
  pub vehicle_location : Option String
  pub verification_level : String
  pub category_id : ℕ
  pub subcategory_id : Option ℕ
  pub category_type : String
  pub country : String
  pub delivery_estimate_days : Option ℕ
  pub published_at : Option ℕ
  pub admin_notes : Option String
  pub deleted_at : Option ℕ

pub record Shipment : Type 0 where
  pub document_number : Option String
  pub vessel_name : Option String
  pub voyage_number : Option String
  pub eta_at : Option ℕ
  pub port_of_loading : Option String
  pub port_of_discharge : Option String
  pub terminal_of_pickup : Option String
  pub final_place_of_delivery : Option String
  pub container_number : Option String
  pub seal_number : Option String
  pub carrier_track_url : Option String
  pub arrival_notice_file_url : Option String
  pub notes : Option String

pub record Order : Type 0 where
  pub order_number : String
  pub user_id : ℕ
  pub listing_id : ℕ
  pub invoice_id : ℕ
  pub status : OrderStatus
  pub seller_type : SellerType
  pub vin : Option String
  pub shipment_id : Option ℕ
  pub delivery_country : String
  pub actual_delivery_date : Option ℕ

pub record OrderTrackingEvent : Type 0 where
  pub order_id : ℕ
  pub stage : OrderStatus
  pub title : String
  pub description : Option String
  pub location : Option String
  pub performed_by : Option ℕ

-- A stored proof of payment, of a payment or of a booking.
pub record PaymentProof : Type 0 where
  pub owner_id : ℕ
  pub file_url : String
  pub file_type : String
  pub file_name : String

-- The JSON values that notifications and activity logs carry.
pub data Json (Num : Type 0) : Type 0 where
  id : ℕ → Json Num
  ids : List ℕ → Json Num
  text : String → Json Num
  nullable : Option String → Json Num
  nullable_id : Option ℕ → Json Num
  amount : Num → Json Num
  flag : Bool → Json Num

module _ ⦃N : Js⦄ where
  open N use {Num}

  abbrev pub Metadata : Type 0
  Metadata = List (String × Json Num)

  pub record ListingPricing : Type 0 where
    pub base_price_usd : Option Num
    pub fob_price_usd : Option Num
    pub seller_desired_payout_usd : Option Num
    pub shipping_cost_usd : Option Num
    pub local_charges_usd : Option Num
    pub taxes_estimate_usd : Option Num
    pub insurance_usd : Option Num
    pub clearing_fee_usd : Option Num
    pub landing_cost_usd : Option Num
    pub margin_usd : Option Num
    pub rule_discount_usd : Option Num
    pub discount_usd : Option Num
    pub final_price_usd : Num
    pub base_price_rwf : Option Num
    pub fob_price_rwf : Option Num
    pub seller_desired_payout_rwf : Option Num
    pub discount_rwf : Option Num
    pub final_price_rwf : Option Num
    pub display_price_rwf : Option Num
    pub currency : String

  pub record BuyerSnapshot : Type 0 where
    pub buyer_name : String
    pub buyer_email : Option String
    pub buyer_phone : Option String
    pub buyer_address : Option String
    pub buyer_type : Option String

  pub record VehicleSnapshot : Type 0 where
    pub vehicle_brand : Option String
    pub vehicle_model : Option String
    pub vehicle_trim : Option String
    pub vehicle_year : Option ℕ
    pub vehicle_condition : Option String
    pub vehicle_location : Option String
    pub seller_type : Option SellerType
    pub verification_level : Option String

  pub record PriceSnapshot : Type 0 where
    pub base_price_usd : Option Num
    pub fob_price_usd : Option Num
    pub shipping_cost_usd : Option Num
    pub local_charges_usd : Option Num
    pub taxes_usd : Option Num
    pub insurance_usd : Option Num
    pub clearing_fee_usd : Option Num
    pub landing_cost_usd : Option Num
    pub margin_usd : Option Num
    pub rule_discount_usd : Option Num
    pub discount_usd : Option Num
    pub total_amount_usd : Num
    pub total_amount_rwf : Option Num
    pub currency : String

  pub record Invoice : Type 0 where
    pub invoice_number : String
    pub payment_reference : String
    pub user_id : ℕ
    pub listing_id : Option ℕ
    pub invoice_type : InvoiceType
    pub status : InvoiceStatus
    pub buyer : BuyerSnapshot
    pub vehicle : VehicleSnapshot
    pub price : PriceSnapshot
    pub beneficiary_name : Option String
    pub bank_name : Option String
    pub account_number : Option String
    pub rwf_bank_name : Option String
    pub rwf_account_number : Option String
    pub exchange_rate_used : Option Num
    pub payment_deadline : Option ℕ
    pub valid_until : Option ℕ
    pub issued_at : Option ℕ
    pub delivery_estimate : Option String
    pub notes : Option String

  pub record Payment : Type 0 where
    pub invoice_id : ℕ
    pub amount_paid : Num
    pub currency : String
    pub bank_name : Option String
    pub transfer_reference : Option String
    pub payment_date : Option ℕ
    pub sender_name : Option String
    pub notes : Option String
    pub exchange_rate_used : Option Num
    pub status : PaymentStatus
    pub verified_by : Option ℕ
    pub verified_at : Option ℕ
    pub rejection_reason : Option String

  pub record VehicleBooking : Type 0 where
    pub booking_number : String
    pub payment_reference : String
    pub listing_id : ℕ
    pub user_id : ℕ
    pub booking_fee_usd : Num
    pub booking_fee_rwf : Option Num
    pub currency : String
    pub status : VehicleBookingStatus
    pub amount_paid : Option Num
    pub bank_name : Option String
    pub transfer_reference : Option String
    pub payment_date : Option ℕ
    pub sender_name : Option String
    pub notes : Option String
    pub exchange_rate_used : Option Num
    pub rejection_reason : Option String
    pub valid_until : Option ℕ
    pub confirmed_at : Option ℕ
    pub verified_by : Option ℕ
    pub verified_at : Option ℕ

  pub record SustainabilityMetric : Type 0 where
    pub listing_id : ℕ
    pub order_id : ℕ
    pub vehicle_type : String
    pub buyer_type : Option String
    pub country : String
    pub estimated_co2_avoided_kg : Num
    pub estimated_fuel_saved_l : Num
    pub green_km_supported : Num

  pub record Notification : Type 0 where
    pub user_id : ℕ
    pub kind : NotificationType
    pub title : String
    pub body : String
    pub metadata : Metadata
    pub is_read : Bool

  pub record ActivityLog : Type 0 where
    pub user_id : Option ℕ
    pub action : String
    pub entity : Option String
    pub entity_id : Option ℕ
    pub ip_address : Option String
    pub user_agent : Option String
    pub metadata : Option Metadata
