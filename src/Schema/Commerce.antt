-- ===== src/Schema/Commerce.antt =====
-- Enumerations of prisma/schema.prisma for invoices, payments, bookings and orders. A
-- value is stored and printed as its name.
use uza_mobility_bn.Base.{ℕ, String}
use uza_mobility_bn.Base.Text.{Enum}

pub data InvoiceType : Type 0 where
  proforma deposit balance final fleet parts charging_equipment : InvoiceType

abbrev pub invoice_type_name : InvoiceType → String
invoice_type_name InvoiceType.proforma = "PROFORMA"
invoice_type_name InvoiceType.deposit = "DEPOSIT"
invoice_type_name InvoiceType.balance = "BALANCE"
invoice_type_name InvoiceType.final = "FINAL"
invoice_type_name InvoiceType.fleet = "FLEET"
invoice_type_name InvoiceType.parts = "PARTS"
invoice_type_name InvoiceType.charging_equipment = "CHARGING_EQUIPMENT"

abbrev pub invoice_type_tag : InvoiceType → ℕ
invoice_type_tag InvoiceType.proforma = 0
invoice_type_tag InvoiceType.deposit = 1
invoice_type_tag InvoiceType.balance = 2
invoice_type_tag InvoiceType.final = 3
invoice_type_tag InvoiceType.fleet = 4
invoice_type_tag InvoiceType.parts = 5
invoice_type_tag InvoiceType.charging_equipment = 6

instance abbrev pub invoice_type_enum : Enum InvoiceType
invoice_type_enum = record { name = invoice_type_name; tag = invoice_type_tag }

pub data InvoiceStatus : Type 0 where
  draft sent awaiting_payment payment_submitted under_verification payment_confirmed : InvoiceStatus
  partially_paid fully_paid expired rejected refunded cancelled : InvoiceStatus

abbrev pub invoice_status_name : InvoiceStatus → String
invoice_status_name InvoiceStatus.draft = "DRAFT"
invoice_status_name InvoiceStatus.sent = "SENT"
invoice_status_name InvoiceStatus.awaiting_payment = "AWAITING_PAYMENT"
invoice_status_name InvoiceStatus.payment_submitted = "PAYMENT_SUBMITTED"
invoice_status_name InvoiceStatus.under_verification = "UNDER_VERIFICATION"
invoice_status_name InvoiceStatus.payment_confirmed = "PAYMENT_CONFIRMED"
invoice_status_name InvoiceStatus.partially_paid = "PARTIALLY_PAID"
invoice_status_name InvoiceStatus.fully_paid = "FULLY_PAID"
invoice_status_name InvoiceStatus.expired = "EXPIRED"
invoice_status_name InvoiceStatus.rejected = "REJECTED"
invoice_status_name InvoiceStatus.refunded = "REFUNDED"
invoice_status_name InvoiceStatus.cancelled = "CANCELLED"

abbrev pub invoice_status_tag : InvoiceStatus → ℕ
invoice_status_tag InvoiceStatus.draft = 0
invoice_status_tag InvoiceStatus.sent = 1
invoice_status_tag InvoiceStatus.awaiting_payment = 2
invoice_status_tag InvoiceStatus.payment_submitted = 3
invoice_status_tag InvoiceStatus.under_verification = 4
invoice_status_tag InvoiceStatus.payment_confirmed = 5
invoice_status_tag InvoiceStatus.partially_paid = 6
invoice_status_tag InvoiceStatus.fully_paid = 7
invoice_status_tag InvoiceStatus.expired = 8
invoice_status_tag InvoiceStatus.rejected = 9
invoice_status_tag InvoiceStatus.refunded = 10
invoice_status_tag InvoiceStatus.cancelled = 11

instance abbrev pub invoice_status_enum : Enum InvoiceStatus
invoice_status_enum = record { name = invoice_status_name; tag = invoice_status_tag }

pub data PaymentStatus : Type 0 where
  submitted under_verification confirmed rejected refunded : PaymentStatus

abbrev pub payment_status_name : PaymentStatus → String
payment_status_name PaymentStatus.submitted = "SUBMITTED"
payment_status_name PaymentStatus.under_verification = "UNDER_VERIFICATION"
payment_status_name PaymentStatus.confirmed = "CONFIRMED"
payment_status_name PaymentStatus.rejected = "REJECTED"
payment_status_name PaymentStatus.refunded = "REFUNDED"

abbrev pub payment_status_tag : PaymentStatus → ℕ
payment_status_tag PaymentStatus.submitted = 0
payment_status_tag PaymentStatus.under_verification = 1
payment_status_tag PaymentStatus.confirmed = 2
payment_status_tag PaymentStatus.rejected = 3
payment_status_tag PaymentStatus.refunded = 4

instance abbrev pub payment_status_enum : Enum PaymentStatus
payment_status_enum = record { name = payment_status_name; tag = payment_status_tag }

pub data VehicleBookingStatus : Type 0 where
  awaiting_payment payment_submitted under_verification confirmed rejected cancelled :
      VehicleBookingStatus
  expired : VehicleBookingStatus

abbrev pub vehicle_booking_status_name : VehicleBookingStatus → String
vehicle_booking_status_name VehicleBookingStatus.awaiting_payment = "AWAITING_PAYMENT"
vehicle_booking_status_name VehicleBookingStatus.payment_submitted = "PAYMENT_SUBMITTED"
vehicle_booking_status_name VehicleBookingStatus.under_verification = "UNDER_VERIFICATION"
vehicle_booking_status_name VehicleBookingStatus.confirmed = "CONFIRMED"
vehicle_booking_status_name VehicleBookingStatus.rejected = "REJECTED"
vehicle_booking_status_name VehicleBookingStatus.cancelled = "CANCELLED"
vehicle_booking_status_name VehicleBookingStatus.expired = "EXPIRED"

abbrev pub vehicle_booking_status_tag : VehicleBookingStatus → ℕ
vehicle_booking_status_tag VehicleBookingStatus.awaiting_payment = 0
vehicle_booking_status_tag VehicleBookingStatus.payment_submitted = 1
vehicle_booking_status_tag VehicleBookingStatus.under_verification = 2
vehicle_booking_status_tag VehicleBookingStatus.confirmed = 3
vehicle_booking_status_tag VehicleBookingStatus.rejected = 4
vehicle_booking_status_tag VehicleBookingStatus.cancelled = 5
vehicle_booking_status_tag VehicleBookingStatus.expired = 6

instance abbrev pub vehicle_booking_status_enum : Enum VehicleBookingStatus
vehicle_booking_status_enum = record {
  name = vehicle_booking_status_name;
  tag = vehicle_booking_status_tag;
}

pub data OrderStatus : Type 0 where
  invoice_issued payment_submitted payment_confirmed vehicle_reserved processing : OrderStatus
  in_transit arrived clearance ready_for_handover delivered cancelled : OrderStatus

abbrev pub order_status_name : OrderStatus → String
order_status_name OrderStatus.invoice_issued = "INVOICE_ISSUED"
order_status_name OrderStatus.payment_submitted = "PAYMENT_SUBMITTED"
order_status_name OrderStatus.payment_confirmed = "PAYMENT_CONFIRMED"
order_status_name OrderStatus.vehicle_reserved = "VEHICLE_RESERVED"
order_status_name OrderStatus.processing = "PROCESSING"
order_status_name OrderStatus.in_transit = "IN_TRANSIT"
order_status_name OrderStatus.arrived = "ARRIVED"
order_status_name OrderStatus.clearance = "CLEARANCE"
order_status_name OrderStatus.ready_for_handover = "READY_FOR_HANDOVER"
order_status_name OrderStatus.delivered = "DELIVERED"
order_status_name OrderStatus.cancelled = "CANCELLED"

abbrev pub order_status_tag : OrderStatus → ℕ
order_status_tag OrderStatus.invoice_issued = 0
order_status_tag OrderStatus.payment_submitted = 1
order_status_tag OrderStatus.payment_confirmed = 2
order_status_tag OrderStatus.vehicle_reserved = 3
order_status_tag OrderStatus.processing = 4
order_status_tag OrderStatus.in_transit = 5
order_status_tag OrderStatus.arrived = 6
order_status_tag OrderStatus.clearance = 7
order_status_tag OrderStatus.ready_for_handover = 8
order_status_tag OrderStatus.delivered = 9
order_status_tag OrderStatus.cancelled = 10

instance abbrev pub order_status_enum : Enum OrderStatus
order_status_enum = record { name = order_status_name; tag = order_status_tag }
