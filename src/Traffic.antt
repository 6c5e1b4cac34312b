-- ===== src/Traffic.antt =====
-- The data of the traffic outbox: api/v2board/traffic.go, traffic_isolation.go and
-- traffic_conflict.go. `uint64` values are numbers below 2 ^ 64; `int` and `int64` are integers.
pub mod Checks
pub mod Select
pub mod Effect
pub mod Panel
pub mod Connect
pub mod Store
pub mod Send
pub mod Flush
pub mod Audit
pub mod Holds
pub mod Rotation
pub mod Fuel
mod Examples
use v2node_hy.Base.{ℕ, ℤ, String, Bool, List, map, Option}

pub record TrafficRow : Type 0 where
  pub uid : ℤ
  pub upload : ℤ
  pub download : ℤ
  pub uuid : String

pub record UserTraffic : Type 0 where
  pub uid : ℤ
  pub upload : ℤ
  pub download : ℤ
  pub uuid : String

pub record TrafficBatch : Type 0 where
  pub sequence : ℕ
  pub rows : List TrafficRow

-- `revoked` is `none` for a nil slice.
pub record TrafficAck : Type 0 where
  pub accepted : Bool
  pub sequence : ℕ
  pub digest : String
  pub revoked : Option (List ℤ)

pub record TrafficResolution : Type 0 where
  pub next : ℕ
  pub at : ℤ

pub record TrafficHold : Type 0 where
  pub at : ℤ
  pub batch : Option TrafficBatch

pub record ReportState : Type 0 where
  pub version : ℤ
  pub next : ℕ
  pub pending : Option TrafficBatch
  pub buffered : List TrafficRow
  pub failures : ℤ
  pub resolution : Option TrafficResolution
  pub held : List TrafficHold

pub record TrafficConflict : Type 0 where
  pub kind : String
  pub sequence : ℕ
  pub digest : String
  pub next : ℕ
  pub request_sequence : ℕ
  pub request_digest : String

abbrev pub max_traffic_rows : ℕ
max_traffic_rows = 500

abbrev pub max_traffic_holds : ℕ
max_traffic_holds = 16

-- Seven days in seconds.
abbrev pub traffic_hold_ttl : ℕ
traffic_hold_ttl = 604_800

-- The conversion of a wire row to the row that the runtime commits.
abbrev pub user_row : TrafficRow → UserTraffic
user_row r = record { uid = r.uid; upload = r.upload; download = r.download; uuid = r.uuid }

abbrev pub user_rows : List TrafficRow → List UserTraffic
user_rows = map user_row

-- The conversion of a captured row to a queued row.
abbrev pub queued_row : UserTraffic → TrafficRow
queued_row r = record { uid = r.uid; upload = r.upload; download = r.download; uuid = r.uuid }
