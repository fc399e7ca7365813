-- ===== src/Agent/HostInfo.antt =====
-- host_info.h and host_info.cpp: the counters of one host, and the configuration that they are
-- judged by (main_server.h).
use lars_system.Base.{ℕ, Bool, true, false, ◌||◌, ◌==◌, leb, if◌then◌else◌, inc32, add32, pack_key}
use lars_system.Base.Int.{ℤ}
use lars_system.Agent.Messages.{ret_succ}

-- A `float` threshold r, given by its test: `r a b` is `a * 1.0 / b > r` in double precision.
abbrev pub Rate : Type 0
Rate = ℕ → ℕ → Bool

-- The limits are compared as `uint32_t`. `init_err_cnt` is read by host_info.cpp alone.
pub record Config : Type 0 where
  pub probe_num : ℤ
  pub init_succ_cnt : ℕ
  pub init_err_cnt : ℕ
  pub err_rate : Rate
  pub succ_rate : Rate
  pub contin_err_limit : ℕ
  pub contin_succ_limit : ℕ
  pub local_ip : ℕ

pub record HostInfo : Type 0 where
  pub ip : ℕ
  pub port : ℕ
  pub vsucc : ℕ
  pub verr : ℕ
  pub rsucc : ℕ
  pub rerr : ℕ
  pub contin_succ : ℕ
  pub contin_err : ℕ
  pub overload : Bool

-- The constructor.
unfoldable pub new_host : ℕ → ℕ → ℕ → HostInfo
new_host ip port init_vsucc = record {
  ip = ip;
  port = port;
  vsucc = init_vsucc;
  verr = 0;
  rsucc = 0;
  rerr = 0;
  contin_succ = 0;
  contin_err = 0;
  overload = false;
}

unfoldable pub set_idle : Config → HostInfo → HostInfo
set_idle cfg hi = record hi {
  vsucc = cfg.init_succ_cnt;
  verr = 0;
  rsucc = 0;
  rerr = 0;
  contin_succ = 0;
  contin_err = 0;
  overload = false;
}

unfoldable pub set_overload : Config → HostInfo → HostInfo
set_overload cfg hi = record hi {
  vsucc = 0;
  verr = cfg.init_err_cnt;
  rsucc = 0;
  rerr = 0;
  contin_err = 0;
  contin_succ = 0;
  overload = true;
}

-- The counting part of `load_balance::report`.
unfoldable pub tally : ℕ → HostInfo → HostInfo
tally retcode hi =
    if retcode == ret_succ
    then record hi {
      vsucc = inc32 hi.vsucc;
      rsucc = inc32 hi.rsucc;
      contin_succ = inc32 hi.contin_succ;
      contin_err = 0;
    }
    else record hi {
      verr = inc32 hi.verr;
      rerr = inc32 hi.rerr;
      contin_err = inc32 hi.contin_err;
      contin_succ = 0;
    }

-- Whether an idle host has failed too often: by its rate, or in a row.
unfoldable pub is_failing : Config → HostInfo → Bool
is_failing cfg hi =
    cfg.err_rate hi.verr (add32 hi.vsucc hi.verr) || leb cfg.contin_err_limit hi.contin_err

-- Whether an overloaded host has recovered.
unfoldable pub is_recovered : Config → HostInfo → Bool
is_recovered cfg hi =
    cfg.succ_rate hi.vsucc (add32 hi.vsucc hi.verr) || leb cfg.contin_succ_limit hi.contin_succ

-- The key of a host in `_host_map`.
unfoldable pub host_key : HostInfo → ℕ
host_key hi = pack_key hi.ip hi.port
