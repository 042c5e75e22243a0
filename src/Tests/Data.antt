-- ===== src/Tests/Data.antt =====
-- A small data base: a buyer, a listing with its price, and what is made of them.
use uza_mobility_bn.Base.{ℕ, Option, none, some, List, [], ◌∷◌, true, Bool}
use uza_mobility_bn.Schema.Catalog.{SellerType, ListingStatus}
use uza_mobility_bn.Schema.Market.{SellerStatus}
use uza_mobility_bn.Schema.Commerce.{
  InvoiceType, InvoiceStatus, PaymentStatus, VehicleBookingStatus, OrderStatus,
}
use uza_mobility_bn.Schema.Rows.{
  User, Seller, Listing, ListingPricing, Invoice, Payment, Order, VehicleBooking,
}
use uza_mobility_bn.Schema.World.{World}
use uza_mobility_bn.Platform.Audit.{RequestAuditContext}
use uza_mobility_bn.Tests.Natural.{natural}
use uza_mobility_bn.Tests.Memory.{memory}
use uza_mobility_bn.Tests.Stored.{stored}

abbrev pub buyer : User
buyer = record {
  first_name = "Aline";
  last_name = "Uwase";
  email = "aline@example.rw";
  phone = none;
  is_active = true;
  deleted_at = none;
  roles = "FINANCE_ADMIN" ∷ [];
  buyer_profile = some (record { buyer_type = "INDIVIDUAL"; country = "RW" });
}

abbrev pub dealer : SellerStatus → Bool → Seller
dealer status is_verified = record {
  user_id = 0;
  seller_type = SellerType.local_seller;
  status = status;
  business_name = "Kigali Motors";
  email = none;
  city = none;
  country = "RW";
  is_verified = is_verified;
  verified_at = none;
}

abbrev pub car : ListingStatus → Listing
car status = record {
  listing_title = "BYD Dolphin";
  slug = "byd-dolphin";
  status = status;
  seller_type = SellerType.uza_rwanda_stock;
  seller_id = 0;
  brand = "BYD";
  model = "Dolphin";
  trim = none;
  manufacturing_year = 2024;
  condition = "NEW";
  vehicle_location = none;
  verification_level = "FULL";
  category_id = 0;
  subcategory_id = none;
  category_type = "CAR";
  country = "RW";
  delivery_estimate_days = some 3;
  published_at = some 10;
  admin_notes = none;
  deleted_at = none;
}

abbrev pub car_price : ListingPricing
car_price = record {
  base_price_usd = none;
  fob_price_usd = none;
  seller_desired_payout_usd = none;
  shipping_cost_usd = none;
  local_charges_usd = none;
  taxes_estimate_usd = none;
  insurance_usd = none;
  clearing_fee_usd = none;
  landing_cost_usd = none;
  margin_usd = none;
  rule_discount_usd = none;
  discount_usd = none;
  final_price_usd = 20000;
  base_price_rwf = none;
  fob_price_rwf = none;
  seller_desired_payout_rwf = none;
  discount_rwf = none;
  final_price_rwf = some 29000000;
  display_price_rwf = some 29000000;
  currency = "RWF";
}

abbrev pub invoice_of : Option ℕ → InvoiceStatus → Invoice
invoice_of listing_id status = record {
  invoice_number = "UZM-INV-2026-000001";
  payment_reference = "UZM-PAY-2026-000001";
  user_id = 0;
  listing_id = listing_id;
  invoice_type = InvoiceType.proforma;
  status = status;
  buyer = record {
    buyer_name = "Aline Uwase";
    buyer_email = none;
    buyer_phone = none;
    buyer_address = none;
    buyer_type = none;
  };
  vehicle = record {
    vehicle_brand = none;
    vehicle_model = none;
    vehicle_trim = none;
    vehicle_year = none;
    vehicle_condition = none;
    vehicle_location = none;
    seller_type = none;
    verification_level = none;
  };
  price = record {
    base_price_usd = none;
    fob_price_usd = none;
    shipping_cost_usd = none;
    local_charges_usd = none;
    taxes_usd = none;
    insurance_usd = none;
    clearing_fee_usd = none;
    landing_cost_usd = none;
    margin_usd = none;
    rule_discount_usd = none;
    discount_usd = none;
    total_amount_usd = 20000;
    total_amount_rwf = some 29000000;
    currency = "RWF";
  };
  beneficiary_name = none;
  bank_name = none;
  account_number = none;
  rwf_bank_name = none;
  rwf_account_number = none;
  exchange_rate_used = none;
  payment_deadline = none;
  valid_until = some 900;
  issued_at = some 100;
  delivery_estimate = none;
  notes = none;
}

abbrev pub payment_of : PaymentStatus → Payment
payment_of status = record {
  invoice_id = 0;
  amount_paid = 29000000;
  currency = "RWF";
  bank_name = none;
  transfer_reference = none;
  payment_date = none;
  sender_name = none;
  notes = none;
  exchange_rate_used = none;
  status = status;
  verified_by = none;
  verified_at = none;
  rejection_reason = none;
}

abbrev pub order_at : OrderStatus → Order
order_at status = record {
  order_number = "UZM-ORD-2026-000001";
  user_id = 0;
  listing_id = 0;
  invoice_id = 0;
  status = status;
  seller_type = SellerType.uza_rwanda_stock;
  vin = none;
  shipment_id = none;
  delivery_country = "RW";
  actual_delivery_date = none;
}

abbrev pub booking_at : VehicleBookingStatus → VehicleBooking
booking_at status = record {
  booking_number = "UZM-BKG-2026-000001";
  payment_reference = "UZM-BKG-PAY-2026-000001";
  listing_id = 0;
  user_id = 0;
  booking_fee_usd = 500;
  booking_fee_rwf = none;
  currency = "RWF";
  status = status;
  amount_paid = some 736414;
  bank_name = none;
  transfer_reference = none;
  payment_date = none;
  sender_name = none;
  notes = none;
  exchange_rate_used = none;
  rejection_reason = none;
  valid_until = none;
  confirmed_at = none;
  verified_by = none;
  verified_at = none;
}

-- One buyer, one listing with its price, and the rows given.
abbrev pub world :
    ListingStatus → List Invoice → List Payment → List Order → List VehicleBooking → World
world status invoices payments orders bookings = record {
  users = stored (buyer ∷ []);
  sellers = stored (dealer SellerStatus.active true ∷ []);
  listings = stored (car status ∷ []);
  listing_pricing = stored (car_price ∷ []);
  invoices = stored invoices;
  payments = stored payments;
  payment_proofs = [];
  orders = stored orders;
  tracking_events = [];
  shipments = [];
  bookings = stored bookings;
  booking_proofs = [];
  sustainability_metrics = [];
  categories = [];
  subcategories = [];
  fleet_requests = [];
  associations = [];
  association_members = [];
  financing_requests = [];
  banks = [];
  roles = [];
  operator_profiles = [];
  charging_stations = [];
  charging_ports = [];
  station_pricing = [];
  vehicle_compatibility = [];
  station_photos = [];
  parts = [];
  part_photos = [];
  inquiries = [];
  charging_products = [];
  charging_product_photos = [];
  energy_requests = [];
  notifications = [];
  activity_logs = [];
  settings = λ key. none;
  public_upload_base_url = "https://example.rw";
  now = 1000;
}

abbrev pub context : RequestAuditContext
context = record { ip_address = none; user_agent = none; actor_email = none }
