-- ===== src/Schema/Catalog.antt =====
-- Enumerations of prisma/schema.prisma for listings and charging stations. A
-- value is stored and printed as its name.
use uza_mobility_bn.Base.{ℕ, String}
use uza_mobility_bn.Base.Text.{Enum}

pub data SellerType : Type 0 where
  uza_rwanda_stock uza_china_sourcing local_seller international_seller : SellerType

abbrev pub seller_type_name : SellerType → String
seller_type_name SellerType.uza_rwanda_stock = "UZA_RWANDA_STOCK"
seller_type_name SellerType.uza_china_sourcing = "UZA_CHINA_SOURCING"
seller_type_name SellerType.local_seller = "LOCAL_SELLER"
seller_type_name SellerType.international_seller = "INTERNATIONAL_SELLER"

abbrev pub seller_type_tag : SellerType → ℕ
seller_type_tag SellerType.uza_rwanda_stock = 0
seller_type_tag SellerType.uza_china_sourcing = 1
seller_type_tag SellerType.local_seller = 2
seller_type_tag SellerType.international_seller = 3

instance abbrev pub seller_type_enum : Enum SellerType
seller_type_enum = record { name = seller_type_name; tag = seller_type_tag }

pub data ListingInventoryStage : Type 0 where
  china_unpaid in_transit at_port kigali_stock : ListingInventoryStage

abbrev pub listing_inventory_stage_name : ListingInventoryStage → String
listing_inventory_stage_name ListingInventoryStage.china_unpaid = "CHINA_UNPAID"
listing_inventory_stage_name ListingInventoryStage.in_transit = "IN_TRANSIT"
listing_inventory_stage_name ListingInventoryStage.at_port = "AT_PORT"
listing_inventory_stage_name ListingInventoryStage.kigali_stock = "KIGALI_STOCK"

abbrev pub listing_inventory_stage_tag : ListingInventoryStage → ℕ
listing_inventory_stage_tag ListingInventoryStage.china_unpaid = 0
listing_inventory_stage_tag ListingInventoryStage.in_transit = 1
listing_inventory_stage_tag ListingInventoryStage.at_port = 2
listing_inventory_stage_tag ListingInventoryStage.kigali_stock = 3

instance abbrev pub listing_inventory_stage_enum : Enum ListingInventoryStage
listing_inventory_stage_enum = record {
  name = listing_inventory_stage_name;
  tag = listing_inventory_stage_tag;
}

pub data ListingStatus : Type 0 where
  draft pending_review approved published sold reserved suspended rejected expired : ListingStatus
  archived : ListingStatus

abbrev pub listing_status_name : ListingStatus → String
listing_status_name ListingStatus.draft = "DRAFT"
listing_status_name ListingStatus.pending_review = "PENDING_REVIEW"
listing_status_name ListingStatus.approved = "APPROVED"
listing_status_name ListingStatus.published = "PUBLISHED"
listing_status_name ListingStatus.sold = "SOLD"
listing_status_name ListingStatus.reserved = "RESERVED"
listing_status_name ListingStatus.suspended = "SUSPENDED"
listing_status_name ListingStatus.rejected = "REJECTED"
listing_status_name ListingStatus.expired = "EXPIRED"
listing_status_name ListingStatus.archived = "ARCHIVED"

abbrev pub listing_status_tag : ListingStatus → ℕ
listing_status_tag ListingStatus.draft = 0
listing_status_tag ListingStatus.pending_review = 1
listing_status_tag ListingStatus.approved = 2
listing_status_tag ListingStatus.published = 3
listing_status_tag ListingStatus.sold = 4
listing_status_tag ListingStatus.reserved = 5
listing_status_tag ListingStatus.suspended = 6
listing_status_tag ListingStatus.rejected = 7
listing_status_tag ListingStatus.expired = 8
listing_status_tag ListingStatus.archived = 9

instance abbrev pub listing_status_enum : Enum ListingStatus
listing_status_enum = record { name = listing_status_name; tag = listing_status_tag }

pub data StationStatus : Type 0 where
  draft pending_review approved active suspended rejected closed : StationStatus

abbrev pub station_status_name : StationStatus → String
station_status_name StationStatus.draft = "DRAFT"
station_status_name StationStatus.pending_review = "PENDING_REVIEW"
station_status_name StationStatus.approved = "APPROVED"
station_status_name StationStatus.active = "ACTIVE"
station_status_name StationStatus.suspended = "SUSPENDED"
station_status_name StationStatus.rejected = "REJECTED"
station_status_name StationStatus.closed = "CLOSED"

abbrev pub station_status_tag : StationStatus → ℕ
station_status_tag StationStatus.draft = 0
station_status_tag StationStatus.pending_review = 1
station_status_tag StationStatus.approved = 2
station_status_tag StationStatus.active = 3
station_status_tag StationStatus.suspended = 4
station_status_tag StationStatus.rejected = 5
station_status_tag StationStatus.closed = 6

instance abbrev pub station_status_enum : Enum StationStatus
station_status_enum = record { name = station_status_name; tag = station_status_tag }
