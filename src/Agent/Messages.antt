-- ===== src/Agent/Messages.antt =====
-- The protobuf messages of Lars/base/proto/lars.proto that the agent reads and writes. A field of
-- type `int32` or `uint32` is a 32-bit pattern; the wire format is protobuf's.
use lars_system.Base.{ℕ, Bool, List, Option}

abbrev pub ret_succ : ℕ
ret_succ = 0

abbrev pub ret_overload : ℕ
ret_overload = 1

abbrev pub ret_noexist : ℕ
ret_noexist = 3

-- `message HostInfo`.
pub record HostAddr : Type 0 where
  pub ip : ℕ
  pub port : ℕ

pub record GetRouteRequest : Type 0 where
  pub modid : ℕ
  pub cmdid : ℕ

pub record GetHostResponse : Type 0 where
  pub seq : ℕ
  pub modid : ℕ
  pub cmdid : ℕ
  pub retcode : ℕ
  pub host : Option HostAddr

pub record ReportRequest : Type 0 where
  pub modid : ℕ
  pub cmdid : ℕ
  pub host : HostAddr
  pub retcode : ℕ

pub record HostCallResult : Type 0 where
  pub ip : ℕ
  pub port : ℕ
  pub succ : ℕ
  pub err : ℕ
  pub overload : Bool

pub record ReportStatusRequest : Type 0 where
  pub modid : ℕ
  pub cmdid : ℕ
  pub caller : ℕ
  pub results : List HostCallResult
  pub ts : ℕ
