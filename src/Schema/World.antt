-- ===== src/Schema/World.antt =====
-- The data base and the clock, as one request sees them.
use uza_mobility_bn.Base.{ℕ, String, Option}
use uza_mobility_bn.Js.{Js}
use uza_mobility_bn.Db.{Prisma}
use uza_mobility_bn.Schema.Rows.{
  User, Seller, Listing, ListingPricing, Invoice, Payment, PaymentProof, Order, OrderTrackingEvent,
  Shipment, VehicleBooking, SustainabilityMetric, Notification, ActivityLog,
}
use uza_mobility_bn.Schema.RequestRows.{
  Category, Subcategory, Association, AssociationMember, FleetRequest, FinancingRequest, Bank,
}
use uza_mobility_bn.Schema.StationRows.{
  Role, OperatorProfile, ChargingStation, ChargingPort, StationPricing, VehicleCompatibility,
  StationPhoto,
}
use uza_mobility_bn.Schema.MarketRows.{
  Part, PartPhoto, Inquiry, ChargingProduct, ChargingProductPhoto, EnergyRequest,
}

module _ ⦃N : Js⦄ ⦃P : Prisma⦄ where
  open P use {Table}

  pub record World : Type 0 where
    pub users : Table User
    pub sellers : Table Seller
    pub listings : Table Listing
    -- keyed by `listingId`, which is unique
    pub listing_pricing : Table ListingPricing
    pub invoices : Table Invoice
    pub payments : Table Payment
    pub payment_proofs : Table PaymentProof
    pub orders : Table Order
    pub tracking_events : Table OrderTrackingEvent
    pub shipments : Table Shipment
    pub bookings : Table VehicleBooking
    pub booking_proofs : Table PaymentProof
    pub sustainability_metrics : Table SustainabilityMetric
    pub categories : Table Category
    pub subcategories : Table Subcategory
    pub fleet_requests : Table FleetRequest
    pub associations : Table Association
    pub association_members : Table AssociationMember
    pub financing_requests : Table FinancingRequest
    pub banks : Table Bank
    pub roles : Table Role
    pub operator_profiles : Table OperatorProfile
    pub charging_stations : Table ChargingStation
    pub charging_ports : Table ChargingPort
    pub station_pricing : Table StationPricing
    pub vehicle_compatibility : Table VehicleCompatibility
    pub station_photos : Table StationPhoto
    pub parts : Table Part
    pub part_photos : Table PartPhoto
    pub inquiries : Table Inquiry
    pub charging_products : Table ChargingProduct
    pub charging_product_photos : Table ChargingProductPhoto
    pub energy_requests : Table EnergyRequest
    pub notifications : Table Notification
    pub activity_logs : Table ActivityLog
    -- the value of each key of `platform_settings`
    pub settings : String → Option String
    -- `PUBLIC_UPLOAD_BASE_URL` of the environment
    pub public_upload_base_url : String
    -- `new Date()`
    pub now : ℕ
