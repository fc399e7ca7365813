-- ===== src/Agent/Threads/FirstCall.antt =====
-- The way of a pair through the agent: its first request asks the DNS service, the answer goes to
-- the table that the request came to, and after it a request names a host of the answer.
use lars_system.Base.{
  ℕ, ◌≡◌, refl, ◌∙◌, false, none, some, List, [], ◌∷◌, ◌++◌, arith, lookup, put, lookup-put, is_nil,
  pack_key, get_elem?, set, get_elem?-set_self, Returns, Returns-mono, Returns->>=,
}
use lars_system.Base.Int.{ℤ}
use lars_system.Agent.Messages.{HostAddr, GetHostResponse, ret_noexist}
use lars_system.Agent.HostInfo.{Config}
use lars_system.Agent.LoadBalance.{LoadBalance, new_load_balance, pull}
use lars_system.Agent.LoadBalance.Update.{update}
use lars_system.Agent.RouteLb.{RouteLb, get_host, get_host_new, update_host}
use lars_system.Agent.Api.{agent_index, GetHostRequest, get_host_cb}
use lars_system.Agent.Threads.{
  Agent, GetRouteResponse, table, with_table, serve_get_host, deal_recv_route,
}
use lars_system.Agent.Threads.Answers.{blank, Names, Fresh, get_host_cb-Names, asked, update-Fresh}

abbrev key_of : GetHostRequest → ℕ
key_of req = pack_key req.modid req.cmdid

-- The agent after the first request of a pair.
abbrev after_asking : ℕ → List (ℕ × LoadBalance) → ℤ → GetHostRequest → Agent → Agent
after_asking index m garbage req a = record {
  r_lb = set a.r_lb index (put (key_of req) (asked req.modid req.cmdid garbage) m);
  dns_queue = a.dns_queue ++ record { modid = req.modid; cmdid = req.cmdid } ∷ [];
  report_queue = a.report_queue;
}

get_host-asks :
    (cfg : Config) (garbage : ℤ) (req : GetHostRequest) (s : RouteLb)
    → lookup (key_of req) s.route_lb_map ≡ none
    → get_host cfg garbage req.modid req.cmdid s (blank req)
      ≡ some (
        record s {
          route_lb_map = put (key_of req) (asked req.modid req.cmdid garbage) s.route_lb_map;
          dns_queue = s.dns_queue ++ record { modid = req.modid; cmdid = req.cmdid } ∷ [];
        },
        ret_noexist,
        record (blank req) { retcode = ret_noexist },
      )
unfolding get_host get_host_new pull new_load_balance
get_host-asks cfg garbage req s missing = rw (missing, get_host) refl

serve_get_host-asks :
    (cfg : Config) (garbage : ℤ) (index : ℕ) (req : GetHostRequest) (a : Agent)
    (m : List (ℕ × LoadBalance))
    → get_elem? a.r_lb index ≡ some m
    → lookup (key_of req) m ≡ none
    → serve_get_host cfg garbage index req a
      ≡ some (after_asking index m garbage req a, record (blank req) { retcode = ret_noexist })
unfolding serve_get_host table with_table get_host_cb
serve_get_host-asks cfg garbage index req a m e missing =
    rw
      (
        e,
        get_host-asks cfg garbage req
            (record { route_lb_map = m; dns_queue = a.dns_queue; report_queue = a.report_queue })
            missing,
      )
      refl

-- The table `index` has a load balancer of the pair that can serve the hosts.
abbrev Serving : List HostAddr → ℕ → ℕ → Agent → Type 0
Serving hosts key index a =
    (m : List (ℕ × LoadBalance)) × (lb : LoadBalance) × (get_elem? a.r_lb index ≡ some m)
    × (lookup key m ≡ some lb)
    × Fresh hosts lb

update_host-Serving :
    (cfg : Config) (modid cmdid : ℕ) (garbage : ℤ) (hosts : List HostAddr) (s : RouteLb)
    → lookup (pack_key modid cmdid) s.route_lb_map ≡ some (asked modid cmdid garbage)
    → is_nil hosts ≡ false
    → Returns
        (λ s'.
          (lb : LoadBalance) × (lookup (pack_key modid cmdid) s'.route_lb_map ≡ some lb)
          × Fresh hosts lb)
        (update_host cfg modid cmdid hosts s)
unfolding update_host
update_host-Serving cfg modid cmdid garbage hosts s found some_host =
    rw (found, update_host, some_host)
      (Returns->>= _ (update cfg hosts (asked modid cmdid garbage)) _
        (update-Fresh cfg modid cmdid garbage hosts some_host)
        λ lb f. (
          lb,
          lookup-put (pack_key modid cmdid) (pack_key modid cmdid) lb s.route_lb_map ∙ ground arith,
          f,
        ))

deal_recv_route-Serving :
    (cfg : Config) (garbage : ℤ) (index : ℕ) (rsp : GetRouteResponse) (a : Agent)
    (m : List (ℕ × LoadBalance))
    → agent_index rsp.modid rsp.cmdid ≡ some index
    → get_elem? a.r_lb index ≡ some m
    → lookup (pack_key rsp.modid rsp.cmdid) m ≡ some (asked rsp.modid rsp.cmdid garbage)
    → is_nil rsp.hosts ≡ false
    → Returns (Serving rsp.hosts (pack_key rsp.modid rsp.cmdid) index) (deal_recv_route cfg rsp a)
unfolding deal_recv_route table with_table
deal_recv_route-Serving cfg garbage index rsp a m at_index e found some_host =
    let s : RouteLb = record {
      route_lb_map = m;
      dns_queue = a.dns_queue;
      report_queue = a.report_queue;
    } in
    rw (at_index, e)
      (Returns->>= _ (update_host cfg rsp.modid rsp.cmdid rsp.hosts s) _
        (update_host-Serving cfg rsp.modid rsp.cmdid garbage rsp.hosts s found some_host)
        λ s' h.
          (s'.route_lb_map, h.0, get_elem?-set_self a.r_lb index s'.route_lb_map m e, h.1, h.2))

serve_get_host-Names :
    (cfg : Config) (garbage : ℤ) (index : ℕ) (hosts : List HostAddr) (req : GetHostRequest)
    (a : Agent)
    → Serving hosts (key_of req) index a
    → Returns (λ r. Names hosts req r.1) (serve_get_host cfg garbage index req a)
unfolding serve_get_host table with_table
serve_get_host-Names cfg garbage index hosts req a (m, lb, e, found, f) =
    let s : RouteLb = record {
      route_lb_map = m;
      dns_queue = a.dns_queue;
      report_queue = a.report_queue;
    } in
    rw e (
      Returns->>= _ (get_host_cb cfg garbage req s) _
        (get_host_cb-Names cfg garbage hosts req s lb found f) λ r names. names)

-- What happens to a pair that is new to the agent.
abbrev pub GetsServed :
    Config
    → ℤ
    → ℕ
    → List HostAddr
    → GetHostRequest
    → GetHostRequest
    → Agent
    → Agent × GetHostResponse
    → Type 0
GetsServed cfg garbage index hosts req again a (a1, rsp1) =
    (rsp1.retcode ≡ ret_noexist)
    × (a1.dns_queue ≡ a.dns_queue ++ record { modid = req.modid; cmdid = req.cmdid } ∷ [])
    × Returns
        (λ a2. Returns (λ r. Names hosts again r.1) (serve_get_host cfg garbage index again a2))
        (deal_recv_route cfg (record { modid = req.modid; cmdid = req.cmdid; hosts = hosts }) a1)

-- A pair that is new to the agent whose index it has: the first request is answered by RET_NOEXIST
-- and puts one request for the pair at the end of the DNS client's queue; once the DNS service
-- answers with hosts, the next request for the pair at the same agent succeeds, and its response is
-- for it and names a host of that answer.
pub first_call-GetsServed :
    (cfg : Config) (garbage : ℤ) (index seq : ℕ) (hosts : List HostAddr) (req : GetHostRequest)
    (a : Agent) (m : List (ℕ × LoadBalance))
    → agent_index req.modid req.cmdid ≡ some index
    → get_elem? a.r_lb index ≡ some m
    → lookup (pack_key req.modid req.cmdid) m ≡ none
    → is_nil hosts ≡ false
    → Returns
        (GetsServed cfg garbage index hosts req (record req { seq = seq }) a)
        (serve_get_host cfg garbage index req a)
first_call-GetsServed cfg garbage index seq hosts req a m at_index e missing some_host =
    let m1 = put (key_of req) (asked req.modid req.cmdid garbage) m in
    rw (serve_get_host-asks cfg garbage index req a m e missing) (
      refl,
      refl,
      Returns-mono (Serving hosts (key_of req) index) _
          (deal_recv_route cfg (record { modid = req.modid; cmdid = req.cmdid; hosts = hosts })
            (after_asking index m garbage req a))
          (λ a2 h. serve_get_host-Names cfg garbage index hosts (record req { seq = seq }) a2 h)
          (deal_recv_route-Serving cfg garbage index
            (record { modid = req.modid; cmdid = req.cmdid; hosts = hosts })
            (after_asking index m garbage req a) m1 at_index
            (get_elem?-set_self a.r_lb index m1 m e)
            (lookup-put (key_of req) (key_of req) (asked req.modid req.cmdid garbage) m
              ∙ ground arith)
            some_host),
    )
