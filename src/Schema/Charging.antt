-- ===== src/Schema/Charging.antt =====
-- Enumerations of prisma/schema.prisma for charging operators, stations and ports. A value is
-- stored and printed as its name.
use uza_mobility_bn.Base.{ℕ, String}
use uza_mobility_bn.Base.Text.{Enum}

pub data OperatorStatus : Type 0 where
  pending active suspended rejected : OperatorStatus

abbrev pub operator_status_name : OperatorStatus → String
operator_status_name OperatorStatus.pending = "PENDING"
operator_status_name OperatorStatus.active = "ACTIVE"
operator_status_name OperatorStatus.suspended = "SUSPENDED"
operator_status_name OperatorStatus.rejected = "REJECTED"

abbrev pub operator_status_tag : OperatorStatus → ℕ
operator_status_tag OperatorStatus.pending = 0
operator_status_tag OperatorStatus.active = 1
operator_status_tag OperatorStatus.suspended = 2
operator_status_tag OperatorStatus.rejected = 3

instance abbrev pub operator_status_enum : Enum OperatorStatus
operator_status_enum = record { name = operator_status_name; tag = operator_status_tag }

pub data StationOperationalStatus : Type 0 where
  operational partially_operational offline maintenance : StationOperationalStatus

abbrev pub station_operational_status_name : StationOperationalStatus → String
station_operational_status_name StationOperationalStatus.operational = "OPERATIONAL"
station_operational_status_name StationOperationalStatus.partially_operational =
    "PARTIALLY_OPERATIONAL"
station_operational_status_name StationOperationalStatus.offline = "OFFLINE"
station_operational_status_name StationOperationalStatus.maintenance = "MAINTENANCE"

abbrev pub station_operational_status_tag : StationOperationalStatus → ℕ
station_operational_status_tag StationOperationalStatus.operational = 0
station_operational_status_tag StationOperationalStatus.partially_operational = 1
station_operational_status_tag StationOperationalStatus.offline = 2
station_operational_status_tag StationOperationalStatus.maintenance = 3

instance abbrev pub station_operational_status_enum : Enum StationOperationalStatus
station_operational_status_enum = record {
  name = station_operational_status_name;
  tag = station_operational_status_tag;
}

pub data PortStatus : Type 0 where
  available in_use faulted out_of_service : PortStatus

abbrev pub port_status_name : PortStatus → String
port_status_name PortStatus.available = "AVAILABLE"
port_status_name PortStatus.in_use = "IN_USE"
port_status_name PortStatus.faulted = "FAULTED"
port_status_name PortStatus.out_of_service = "OUT_OF_SERVICE"

abbrev pub port_status_tag : PortStatus → ℕ
port_status_tag PortStatus.available = 0
port_status_tag PortStatus.in_use = 1
port_status_tag PortStatus.faulted = 2
port_status_tag PortStatus.out_of_service = 3

instance abbrev pub port_status_enum : Enum PortStatus
port_status_enum = record { name = port_status_name; tag = port_status_tag }
