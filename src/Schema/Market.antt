-- ===== src/Schema/Market.antt =====
-- Enumerations of prisma/schema.prisma for sellers, parts and inquiries. A value is stored and
-- printed as its name.
use uza_mobility_bn.Base.{ℕ, String}
use uza_mobility_bn.Base.Text.{Enum}

pub data SellerStatus : Type 0 where
  pending active suspended rejected : SellerStatus

abbrev pub seller_status_name : SellerStatus → String
seller_status_name SellerStatus.pending = "PENDING"
seller_status_name SellerStatus.active = "ACTIVE"
seller_status_name SellerStatus.suspended = "SUSPENDED"
seller_status_name SellerStatus.rejected = "REJECTED"

abbrev pub seller_status_tag : SellerStatus → ℕ
seller_status_tag SellerStatus.pending = 0
seller_status_tag SellerStatus.active = 1
seller_status_tag SellerStatus.suspended = 2
seller_status_tag SellerStatus.rejected = 3

instance abbrev pub seller_status_enum : Enum SellerStatus
seller_status_enum = record { name = seller_status_name; tag = seller_status_tag }

pub data PartStatus : Type 0 where
  pending_review approved rejected : PartStatus

abbrev pub part_status_name : PartStatus → String
part_status_name PartStatus.pending_review = "PENDING_REVIEW"
part_status_name PartStatus.approved = "APPROVED"
part_status_name PartStatus.rejected = "REJECTED"

abbrev pub part_status_tag : PartStatus → ℕ
part_status_tag PartStatus.pending_review = 0
part_status_tag PartStatus.approved = 1
part_status_tag PartStatus.rejected = 2

instance abbrev pub part_status_enum : Enum PartStatus
part_status_enum = record { name = part_status_name; tag = part_status_tag }

pub data InquiryStatus : Type 0 where
  received contacted quoted converted closed : InquiryStatus

abbrev pub inquiry_status_name : InquiryStatus → String
inquiry_status_name InquiryStatus.received = "RECEIVED"
inquiry_status_name InquiryStatus.contacted = "CONTACTED"
inquiry_status_name InquiryStatus.quoted = "QUOTED"
inquiry_status_name InquiryStatus.converted = "CONVERTED"
inquiry_status_name InquiryStatus.closed = "CLOSED"

abbrev pub inquiry_status_tag : InquiryStatus → ℕ
inquiry_status_tag InquiryStatus.received = 0
inquiry_status_tag InquiryStatus.contacted = 1
inquiry_status_tag InquiryStatus.quoted = 2
inquiry_status_tag InquiryStatus.converted = 3
inquiry_status_tag InquiryStatus.closed = 4

instance abbrev pub inquiry_status_enum : Enum InquiryStatus
inquiry_status_enum = record { name = inquiry_status_name; tag = inquiry_status_tag }

pub data InquiryIntent : Type 0 where
  buy book : InquiryIntent

abbrev pub inquiry_intent_name : InquiryIntent → String
inquiry_intent_name InquiryIntent.buy = "BUY"
inquiry_intent_name InquiryIntent.book = "BOOK"

abbrev pub inquiry_intent_tag : InquiryIntent → ℕ
inquiry_intent_tag InquiryIntent.buy = 0
inquiry_intent_tag InquiryIntent.book = 1

instance abbrev pub inquiry_intent_enum : Enum InquiryIntent
inquiry_intent_enum = record { name = inquiry_intent_name; tag = inquiry_intent_tag }
