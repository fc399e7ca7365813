-- ===== src/Agent/Setup.antt =====
-- `init_lb_agent` of main_server.cpp: the thresholds that the agent takes from its configuration
-- file, its tables, and its address.
use lars_system.Base.{
  ℕ, ◌-◌, ◌^◌, ◌≡◌, refl, ap, ltb, ◌==◌, false, if◌then◌else◌, Option, none, some, List, [],
  Returns, Returns-mono, codes, replicate,
}
use lars_system.Base.Int.{ℤ, pos, negsuc}
use lars_system.Agent.HostInfo.{Rate}
use lars_system.Agent.HostInfo
use lars_system.Agent.LoadBalance.{LoadBalance}
use lars_system.Reactor.ConfigFile.{Text, Config, value_of, load}
use lars_system.Reactor.ConfigFile.Readers.{get_number, get_float}
use lars_system.Reactor.ConfigFile.Documents.{Line, print, IsReadable, last_value, load-last_value}

-- A number of the configuration as an `int`.
unfoldable pub int_of : ℕ → ℤ
int_of n = if ltb n (2 ^ 31) then pos n else negsuc (2 ^ 32 - n - 1)

-- 127.0.0.1.
abbrev pub local_host : ℕ
local_host = 2130706433

-- The address that the name of the host has, if it has one.
unfoldable pub own_ip : Option ℕ → ℕ
own_ip none = local_host
own_ip (some ip) = if ip == 0 then local_host else ip

abbrev pub loadbalance : Text
loadbalance = codes "loadbalance"

-- How numbers are parsed and printed by streams, and a threshold of a `float`.
pub record Numbers (F : Type 0) : Type 0 where
  pub parse_number : Text → ℕ
  pub parse_float : Text → Option F
  pub print_float : F → Text
  pub zero_float : F
  pub rate : F → Rate
  pub err_rate_default : F
  pub succ_rate_default : F

-- What a file says of a threshold: the last value under `loadbalance`, or the default.
abbrev pub said : Text → List Line → Option Text
said key doc = last_value loadbalance key none none doc

module _ {F : Type 0} where
  abbrev pub number_at : Numbers F → Text → ℕ → Config → ℕ
  number_at ns key default m = get_number ns.parse_number loadbalance key default m

  abbrev pub float_at : Numbers F → Text → F → Config → F
  float_at ns key default m =
      get_float ns.parse_float ns.print_float ns.zero_float loadbalance key default m

  -- `lb_config` before this is `cfg`, of which only `init_err_cnt` is left, which is never set.
  unfoldable pub init_lb_agent :
      Numbers F
      → Option ℕ
      → Config
      → HostInfo.Config
      → HostInfo.Config × List (List (ℕ × LoadBalance))
  unfolding get_number get_float int_of own_ip
  init_lb_agent ns resolved m cfg = (
    record cfg {
      probe_num = int_of (number_at ns (codes "probe_num") 10 m);
      init_succ_cnt = number_at ns (codes "init_succ_cnt") 180 m;
      err_rate = ns.rate (float_at ns (codes "err_rate") ns.err_rate_default m);
      succ_rate = ns.rate (float_at ns (codes "succ_rate") ns.succ_rate_default m);
      contin_succ_limit = number_at ns (codes "contin_succ_limit") 10 m;
      contin_err_limit = number_at ns (codes "contin_err_limit") 10 m;
      local_ip = own_ip resolved;
    },
    replicate 3 [],
  )

  abbrev pub number_said : Numbers F → Text → ℕ → List Line → ℕ
  number_said ns key default doc = number_of (said key doc)
    where
      number_of : Option Text → ℕ
      number_of none = default
      number_of (some t) = ns.parse_number t

  -- The thresholds that a file says.
  abbrev pub Follows : Numbers F → List Line → HostInfo.Config → Type 0
  Follows ns doc c =
      (c.probe_num ≡ int_of (number_said ns (codes "probe_num") 10 doc))
      × (c.init_succ_cnt ≡ number_said ns (codes "init_succ_cnt") 180 doc)
      × (c.contin_err_limit ≡ number_said ns (codes "contin_err_limit") 10 doc)
      × (c.contin_succ_limit ≡ number_said ns (codes "contin_succ_limit") 10 doc)

  number_at-said :
      (ns : Numbers F) (key : Text) (default : ℕ) (doc : List Line) (m : Config)
      → value_of loadbalance key m ≡ said key doc
      → number_at ns key default m ≡ number_said ns key default doc
  unfolding get_number
  number_at-said ns key default doc m e = rw e refl

  -- The limits of the agent are those that its file says, with the defaults for those that it does
  -- not.
  pub init_lb_agent-Follows :
      (ns : Numbers F) (resolved : Option ℕ) (doc : List Line) (cfg : HostInfo.Config)
      → IsReadable false doc
      → Returns (λ m. Follows ns doc (init_lb_agent ns resolved m cfg).0) (load (print doc))
  unfolding init_lb_agent
  init_lb_agent-Follows ns resolved doc cfg d =
      Returns-mono _ _ (load (print doc))
        (λ m h. (
          ap int_of
              (number_at-said ns (codes "probe_num") 10 doc m (h loadbalance (codes "probe_num"))),
          number_at-said ns (codes "init_succ_cnt") 180 doc m
              (h loadbalance (codes "init_succ_cnt")),
          number_at-said ns (codes "contin_err_limit") 10 doc m
              (h loadbalance (codes "contin_err_limit")),
          number_at-said ns (codes "contin_succ_limit") 10 doc m
              (h loadbalance (codes "contin_succ_limit")),
        ))
        (load-last_value doc d)
