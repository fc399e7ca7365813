-- ===== src/Agent/Api.antt =====
-- The callers' library, lars_api.h and lars_api.cpp, and the callbacks of agent_udp_server.cpp that
-- answer it. What the socket gives is an argument; the address stays a number.
pub mod Calls
use lars_system.Base.{
  ℕ, ◌+◌, ◌-◌, ◌^◌, ◌%◌, ◌==◌, ltb, ◌&&◌, ◌||◌, not, Bool, true, false, if◌then◌else◌, Option, none,
  some, List, [], ◌∷◌, ◌>>=◌, inc32, add32,
}
use lars_system.Base.Int.{ℤ}
use lars_system.Agent.Messages.{HostAddr, GetHostResponse, ReportRequest}
use lars_system.Agent.HostInfo.{Config}
use lars_system.Agent.RouteLb.{RouteLb, get_host, report_host}

-- `lars::RET_SYSTEM_ERROR`.
abbrev pub ret_system_error : ℕ
ret_system_error = 2

-- `(modid + cmdid) % 3`, the agent that a pair belongs to. The sum wraps round, and the remainder of
-- a negative sum is negative or zero: `none` is an index before the array.
unfoldable pub agent_index : ℕ → ℕ → Option ℕ
unfolding add32
agent_index modid cmdid =
    if ltb (add32 modid cmdid) (2 ^ 31)
    then some (add32 modid cmdid % 3)
    else if (2 ^ 32 - add32 modid cmdid) % 3 == 0
    then some 0
    else none

-- `message GetHostRequest`.
pub record GetHostRequest : Type 0 where
  pub seq : ℕ
  pub modid : ℕ
  pub cmdid : ℕ

-- What one turn of the loop that receives meets.
pub data Receipt : Type 0 where
  recv_error : Receipt
  wrong_message : Receipt
  bad_format : Receipt
  response : GetHostResponse → Receipt

-- The loop: older responses are passed over. `none`: no datagram is there yet, and the call waits.
unfoldable pub await_response : ℕ → List Receipt → Option (Option GetHostResponse)
await_response seq [] = none
await_response seq (recv_error ∷ rs) = some none
await_response seq (wrong_message ∷ rs) = some none
await_response seq (bad_format ∷ rs) = some none
await_response seq (response rsp ∷ rs) =
    if ltb rsp.seq seq then await_response seq rs else some (some rsp)

-- The return value, and the host that is written to the caller's variables, if one is.
abbrev pub Result : Type 0
Result = ℕ × Option HostAddr

unfoldable pub is_for : GetHostRequest → GetHostResponse → Bool
is_for req rsp = (rsp.seq == req.seq) && ((rsp.modid == req.modid) && (rsp.cmdid == req.cmdid))

-- A message without a host has the default one, of zeros.
unfoldable pub host_or_default : Option HostAddr → HostAddr
host_or_default none = record { ip = 0; port = 0 }
host_or_default (some h) = h

unfoldable pub read_response : GetHostRequest → Option GetHostResponse → Result
unfolding is_for host_or_default
read_response req none = (ret_system_error, none)
read_response req (some rsp) =
    if is_for req rsp
    then if rsp.retcode == 0
      then (rsp.retcode, some (host_or_default rsp.host))
      else (rsp.retcode, none)
    else (ret_system_error, none)

-- `lars_client::get_host`, from the sequence number on: `sent` tells whether `sendto` succeeds. The
-- new number comes with the result.
unfoldable pub api_get_host : ℕ → ℕ → Bool → List Receipt → ℕ → Option (Result × ℕ)
unfolding await_response read_response inc32
api_get_host modid cmdid false receipts seqid = some ((ret_system_error, none), inc32 seqid)
api_get_host modid cmdid true receipts seqid = await_response seqid receipts >>= λ rsp.
    some (read_response (record { seq = seqid; modid = modid; cmdid = cmdid }) rsp, inc32 seqid)

-- `get_host_cb`: the response that is sent, and the table after it.
unfoldable pub get_host_cb :
    Config → ℤ → GetHostRequest → RouteLb → Option (RouteLb × GetHostResponse)
unfolding get_host
get_host_cb cfg garbage req s =
    get_host cfg garbage req.modid req.cmdid s
      (record { seq = req.seq; modid = req.modid; cmdid = req.cmdid; retcode = 0; host = none })
    >>= λ answer. some (answer.0, answer.2)

-- `report_cb`.
unfoldable pub report_cb : Config → ℕ → ReportRequest → RouteLb → Option RouteLb
unfolding report_host
report_cb cfg now req s = report_host cfg now req s

-- `lars_client::report`: the agent that the report goes to, and the report; `ip` is the number that
-- `inet_aton` gives. Whether `sendto` succeeds is only noted on the terminal.
unfoldable pub api_report : ℕ → ℕ → ℕ → ℕ → ℕ → Option (ℕ × ReportRequest)
unfolding agent_index
api_report modid cmdid ip port retcode = do
  index ← agent_index modid cmdid
  some (
    index,
    record {
      modid = modid;
      cmdid = cmdid;
      host = record { ip = ip; port = port };
      retcode = retcode;
    },
  )
