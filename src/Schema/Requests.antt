-- ===== src/Schema/Requests.antt =====
-- Enumerations of prisma/schema.prisma for requests and notifications. A
-- value is stored and printed as its name.
use uza_mobility_bn.Base.{ℕ, String}
use uza_mobility_bn.Base.Text.{Enum}

pub data FinancingStatus : Type 0 where
  submitted under_review sent_to_bank bank_approved bank_rejected cancelled : FinancingStatus

abbrev pub financing_status_name : FinancingStatus → String
financing_status_name FinancingStatus.submitted = "SUBMITTED"
financing_status_name FinancingStatus.under_review = "UNDER_REVIEW"
financing_status_name FinancingStatus.sent_to_bank = "SENT_TO_BANK"
financing_status_name FinancingStatus.bank_approved = "BANK_APPROVED"
financing_status_name FinancingStatus.bank_rejected = "BANK_REJECTED"
financing_status_name FinancingStatus.cancelled = "CANCELLED"

abbrev pub financing_status_tag : FinancingStatus → ℕ
financing_status_tag FinancingStatus.submitted = 0
financing_status_tag FinancingStatus.under_review = 1
financing_status_tag FinancingStatus.sent_to_bank = 2
financing_status_tag FinancingStatus.bank_approved = 3
financing_status_tag FinancingStatus.bank_rejected = 4
financing_status_tag FinancingStatus.cancelled = 5

instance abbrev pub financing_status_enum : Enum FinancingStatus
financing_status_enum = record { name = financing_status_name; tag = financing_status_tag }

pub data FleetRequestStatus : Type 0 where
  submitted under_review quoted approved in_progress completed cancelled : FleetRequestStatus

abbrev pub fleet_request_status_name : FleetRequestStatus → String
fleet_request_status_name FleetRequestStatus.submitted = "SUBMITTED"
fleet_request_status_name FleetRequestStatus.under_review = "UNDER_REVIEW"
fleet_request_status_name FleetRequestStatus.quoted = "QUOTED"
fleet_request_status_name FleetRequestStatus.approved = "APPROVED"
fleet_request_status_name FleetRequestStatus.in_progress = "IN_PROGRESS"
fleet_request_status_name FleetRequestStatus.completed = "COMPLETED"
fleet_request_status_name FleetRequestStatus.cancelled = "CANCELLED"

abbrev pub fleet_request_status_tag : FleetRequestStatus → ℕ
fleet_request_status_tag FleetRequestStatus.submitted = 0
fleet_request_status_tag FleetRequestStatus.under_review = 1
fleet_request_status_tag FleetRequestStatus.quoted = 2
fleet_request_status_tag FleetRequestStatus.approved = 3
fleet_request_status_tag FleetRequestStatus.in_progress = 4
fleet_request_status_tag FleetRequestStatus.completed = 5
fleet_request_status_tag FleetRequestStatus.cancelled = 6

instance abbrev pub fleet_request_status_enum : Enum FleetRequestStatus
fleet_request_status_enum = record {
  name = fleet_request_status_name;
  tag = fleet_request_status_tag;
}

pub data NotificationType : Type 0 where
  invoice_issued payment_confirmed payment_rejected order_status_updated listing_approved :
      NotificationType
  listing_rejected financing_update fleet_request_update operator_application_approved :
      NotificationType
  operator_application_rejected station_approved station_rejected station_suspended :
      NotificationType
  system_alert shipment_update : NotificationType

abbrev pub notification_type_name : NotificationType → String
notification_type_name NotificationType.invoice_issued = "INVOICE_ISSUED"
notification_type_name NotificationType.payment_confirmed = "PAYMENT_CONFIRMED"
notification_type_name NotificationType.payment_rejected = "PAYMENT_REJECTED"
notification_type_name NotificationType.order_status_updated = "ORDER_STATUS_UPDATED"
notification_type_name NotificationType.listing_approved = "LISTING_APPROVED"
notification_type_name NotificationType.listing_rejected = "LISTING_REJECTED"
notification_type_name NotificationType.financing_update = "FINANCING_UPDATE"
notification_type_name NotificationType.fleet_request_update = "FLEET_REQUEST_UPDATE"
notification_type_name NotificationType.operator_application_approved =
    "OPERATOR_APPLICATION_APPROVED"
notification_type_name NotificationType.operator_application_rejected =
    "OPERATOR_APPLICATION_REJECTED"
notification_type_name NotificationType.station_approved = "STATION_APPROVED"
notification_type_name NotificationType.station_rejected = "STATION_REJECTED"
notification_type_name NotificationType.station_suspended = "STATION_SUSPENDED"
notification_type_name NotificationType.system_alert = "SYSTEM_ALERT"
notification_type_name NotificationType.shipment_update = "SHIPMENT_UPDATE"

abbrev pub notification_type_tag : NotificationType → ℕ
notification_type_tag NotificationType.invoice_issued = 0
notification_type_tag NotificationType.payment_confirmed = 1
notification_type_tag NotificationType.payment_rejected = 2
notification_type_tag NotificationType.order_status_updated = 3
notification_type_tag NotificationType.listing_approved = 4
notification_type_tag NotificationType.listing_rejected = 5
notification_type_tag NotificationType.financing_update = 6
notification_type_tag NotificationType.fleet_request_update = 7
notification_type_tag NotificationType.operator_application_approved = 8
notification_type_tag NotificationType.operator_application_rejected = 9
notification_type_tag NotificationType.station_approved = 10
notification_type_tag NotificationType.station_rejected = 11
notification_type_tag NotificationType.station_suspended = 12
notification_type_tag NotificationType.system_alert = 13
notification_type_tag NotificationType.shipment_update = 14

instance abbrev pub notification_type_enum : Enum NotificationType
notification_type_enum = record { name = notification_type_name; tag = notification_type_tag }
