-- ===== src/Agent/Tests.antt =====
-- The agent on concrete inputs: tests of its definitions, and its theorems at inputs that meet their
-- hypotheses.
use lars_system.Base.{
  ◌*◌, ◌≡◌, refl, inl, ltb, none, some, [], ◌∷◌, lookup, put, keys, contains, insert, pack_key,
  Returns, result_or, Returns-result_or,
}
use lars_system.Base.Int.{pos}
use lars_system.Agent.Messages.{HostAddr, GetHostResponse}
use lars_system.Agent.HostInfo.{Config}
use lars_system.Agent.LoadBalance.{LoadBalance, new_load_balance, pulling, choice_one_host, empty}
use lars_system.Agent.LoadBalance.Invariant.{IsSound}
use lars_system.Agent.LoadBalance.ChoiceSafety.{Served, choice-Served}
use lars_system.Agent.LoadBalance.Update.{update}
use lars_system.Agent.LoadBalance.Update.Dangling.{update-IsSound}
use lars_system.Agent.RouteLb.Invariant.{new-IsSound}

-- Rates of one in ten and nine in ten; three calls in a row.
abbrev pub test_config : Config
test_config = record {
  probe_num = pos 2;
  init_succ_cnt = 180;
  init_err_cnt = 5;
  err_rate = λ a b. ltb b (a * 10);
  succ_rate = λ a b. ltb (b * 9) (a * 10);
  contin_err_limit = 3;
  contin_succ_limit = 3;
  local_ip = 1;
}

abbrev pub host_a : HostAddr
host_a = record { ip = 10; port = 80 }

abbrev pub host_b : HostAddr
host_b = record { ip = 11; port = 80 }

abbrev pub blank : GetHostResponse
blank = record { seq = 1; modid = 1; cmdid = 2; retcode = 0; host = none }

abbrev pub fresh_lb : LoadBalance
fresh_lb = record (new_load_balance 1 2 (pos 0)) { status = pulling }

-- Two idle hosts.
unfoldable pub two_idle : LoadBalance
two_idle = result_or (update test_config (host_a ∷ host_b ∷ []) fresh_lb) fresh_lb

pub two_idle-IsSound : IsSound two_idle
unfolding two_idle new_load_balance lookup
two_idle-IsSound =
    (Returns-result_or _ (update test_config (host_a ∷ host_b ∷ []) fresh_lb) fresh_lb (
      update-IsSound test_config (host_a ∷ host_b ∷ []) fresh_lb (new-IsSound 1 2 (pos 0)) refl
        (λ k. inl refl))).0

pub two_idle-lookup : lookup (pack_key 11 80) two_idle.host_map ≡ some 1
unfolding two_idle new_load_balance update lookup put keys contains insert pack_key
two_idle-lookup = refl

choice-Served_example : Returns (Served two_idle blank) (choice_one_host test_config two_idle blank)
unfolding two_idle new_load_balance update put keys contains insert pack_key lookup empty
choice-Served_example = choice-Served test_config two_idle blank two_idle-IsSound refl
