-- ===== src/Tests/Rows.antt =====
-- Rows of requests, stations, dealers and parts, and tables of one row.
use uza_mobility_bn.Base.{
  ℕ, zero, suc, ◌≡◌, subst, none, some, Bool, true, false, [], ◌∷◌, get_elem?, arith,
}
use uza_mobility_bn.Schema.Catalog.{ListingStatus, StationStatus}
use uza_mobility_bn.Schema.Charging.{StationOperationalStatus}
use uza_mobility_bn.Schema.Market.{PartStatus}
use uza_mobility_bn.Schema.Requests.{FleetRequestStatus, FinancingStatus}
use uza_mobility_bn.Schema.RequestRows.{FleetRequest, FinancingRequest, Bank}
use uza_mobility_bn.Schema.StationRows.{ChargingStation}
use uza_mobility_bn.Schema.MarketRows.{Part}
use uza_mobility_bn.Schema.World.{World}
use uza_mobility_bn.Tests.Natural.{natural}
use uza_mobility_bn.Tests.Memory.{memory}
use uza_mobility_bn.Tests.Stored.{stored, join}
use uza_mobility_bn.Tests.Data.{world}

-- What holds of the row of a table of one row holds of each of its rows.
pub one_row :
    {R : Type 0} (Holds : R → Type 0) (r : R)
    → Holds r
    → (id : ℕ) (x : R) → join (get_elem? (stored (r ∷ [])) id) ≡ some x
    → Holds x
one_row Holds r h zero x e = subst Holds (ground (arith, e)) h
one_row Holds r h (suc id) x e = absurd (ground (arith, e))

abbrev pub shop : World
shop = world ListingStatus.published [] [] [] []

abbrev pub fleet_request : FleetRequestStatus → FleetRequest
fleet_request status = record {
  reference_number = "UZM-FLT-2026-000001";
  summary_pdf_url = none;
  user_id = some 0;
  association_id = none;
  status = status;
  organization_name = "Kigali Taxis";
  contact_person = "Eric";
  phone = "0780000000";
  email = "eric@example.rw";
  buyer_type = "BUSINESS";
  vehicle_category_id = none;
  vehicle_subcategory_id = none;
  quantity = 12;
  use_case = none;
  preferred_delivery_timeline = none;
  budget_range_min = none;
  budget_range_max = none;
  financing_requested = false;
  charging_support_requested = false;
  notes = none;
  admin_notes = none;
  quoted_at = none;
}

abbrev pub financing_request : FinancingRequest
financing_request = record {
  user_id = 0;
  invoice_id = none;
  listing_id = some 0;
  status = FinancingStatus.submitted;
  buyer_name = "Aline Uwase";
  phone = "0780000001";
  buyer_type = none;
  employment_status = none;
  organization_name = none;
  preferred_deposit_usd = none;
  preferred_bank_name = none;
  notes = none;
  assigned_bank_id = none;
  review_notes = none;
}

abbrev pub bank : Bank
bank = record {
  name = "Bank of Kigali";
  country = "RW";
  contact_email = none;
  contact_phone = none;
  is_active = true;
}

abbrev pub station : StationStatus → ChargingStation
station status = record {
  operator_id = 0;
  name = "Remera";
  slug = "remera";
  status = status;
  description = none;
  address = "KG 11";
  city = "Kigali";
  country = "RW";
  latitude = some 2;
  longitude = some 30;
  location_type = "MALL";
  is_open_24h = false;
  opening_hours = none;
  total_ports = 1;
  available_ports = some 1;
  has_parking = true;
  has_wifi = false;
  has_restroom = false;
  has_cctv = false;
  has_roof_cover = false;
  operational_status = StationOperationalStatus.operational;
  admin_notes = none;
  published_at = none;
}

abbrev pub part : PartStatus → Bool → Part
part status is_active = record {
  seller_id = some 0;
  name = "Charger";
  slug = "charger";
  category_slug = "chargers";
  compatible_brands = "BYD" ∷ [];
  compatible_models = [];
  condition = "NEW";
  price_usd = 90;
  stock_quantity = 4;
  delivery_estimate = none;
  has_warranty = false;
  warranty_details = none;
  description = none;
  status = status;
  admin_notes = none;
  is_active = is_active;
}
