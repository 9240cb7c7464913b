-- ===== src/Speaker/Process.antt =====
-- The decision process for a prefix, bgp_router_decision_process of src/bgp/as.c, with the
-- installation of the best route (src/bgp/dp_rt.c) and its dissemination. `none` is an abort. The
-- DP_IGP flag that the rule on the IGP cost sets on a route that loses is not kept in the Adj-RIB-In;
-- no code that runs reads it there.
use cbgp.Base.{
  ℕ, Bool, true, false, Option, none, some, List, [], ◌∷◌, map, ◌==◌, if◌then◌else◌, ◌>>=◌, Outcome,
  ok, error, aborted,
}
use cbgp.Route.{Peer, Route}
use cbgp.Route.Compare.{route_equals}
use cbgp.Decision.{marked, decision_process_run}
use cbgp.Filter.{filter_apply}
use cbgp.Advertise.{advertise_to_peer}
use cbgp.Speaker.{
  is_established, update, withdraw, Session, Bgp, Env, with_best, peer_send, send_enabled,
}

abbrev pub withdraw_prefix : Env → Session → Session
withdraw_prefix env s = peer_send env withdraw s

-- An explicit withdraw, if there is a route in the Adj-RIB-Out.
abbrev pub withdraw_sent : Env → Session → Session
withdraw_sent env s = elim s.adj_out [
  | none ↦ s
  | some _ ↦ withdraw_prefix env (record s { adj_out = none })
]

abbrev pub announce_route : Env → Route → Session → Session
announce_route env out s = peer_send env (update (record out { peer = some s.view })) s

abbrev pub rib_out_replace : Route → Session → Session
rib_out_replace r s = record s { adj_out = some r }

-- The Adj-RIB-Out gets a copy of the route from before the advertisement.
abbrev pub announced : Env → Route → Session → Outcome Route → Option Session
announced env r s (ok out) = some (rib_out_replace r (announce_route env out s))
announced env r s error = some (withdraw_sent env s)
announced env r s aborted = none

abbrev pub advertisement : Env → Route → Session → Outcome Route
advertisement env r s =
    advertise_to_peer env.intern
      (filter_apply env.intern env.path_match env.has_address env.router s.filter_out) env.router
      s.view r

abbrev pub to_established : Env → Option Route → Session → Option Session
to_established env none s = some (withdraw_sent env s)
to_established env (some r) s = announced env r s (advertisement env r s)

unfoldable pub disseminate_to_peer : Env → Option Route → Session → Option Session
unfolding advertise_to_peer filter_apply
disseminate_to_peer env route s =
    if is_established s.state then to_established env route s else some s

unfoldable pub disseminate : Env → Option Route → List Session → Option (List Session)
unfolding disseminate_to_peer
disseminate env route [] = some []
disseminate env route (s ∷ ss) =
    (if send_enabled s then disseminate_to_peer env route s else some s) >>= λ s'.
    disseminate env route ss >>= λ ss'. some (s' ∷ ss')

-- A change of the route in the Adj-RIB-In of the peer of the given address.
abbrev pub change_in : (Route → Route) → ℕ → Session → Session
change_in f addr s =
    if s.view.addr == addr
    then record s { adj_in = elim s.adj_in [ none ↦ none | some r ↦ some (f r) ] }
    else s

abbrev pub change_adj_in : (Route → Route) → Option Peer → List Session → List Session
change_adj_in f none ss = ss
change_adj_in f (some p) ss = map (change_in f p.addr) ss

-- bgp_router_best_flag_off, in the Adj-RIB-In.
abbrev pub best_flag_off : Route → List Session → List Session
best_flag_off r ss = change_adj_in (with_best false) r.peer ss

-- bgp_router_feasible_route for an eligible route, and the flags that are then reset.
abbrev pub feasible_route : Env → Option ℕ → Route → Bool
feasible_route env fib r = env.resolves fib r.attr.next_hop

abbrev pub with_feasible : Bool → Route → Route
with_feasible t r = record r { flags = record (r.flags) { feasible = t } }

abbrev pub reset : Peer → Route → Route
reset p r = record r {
  peer = some p;
  flags = record (r.flags) { feasible = true; dp_igp = false; best = false };
}

-- A session and its candidate, after its Adj-RIB-In was looked at.
abbrev pub looked_at : Env → Option ℕ → Session → Option Route → Session × Option Route
looked_at env fib s none = (s, none)
looked_at env fib s (some r) =
    if r.flags.eligible
    then if feasible_route env fib r
      then (record s { adj_in = some (reset s.view r) }, some (reset s.view r))
      else (record s { adj_in = some (with_feasible false r) }, none)
    else (s, none)

abbrev pub candidate : Env → Option ℕ → Session → Session × Option Route
candidate env fib s = if is_established s.state then looked_at env fib s s.adj_in else (s, none)

abbrev pub sessions_after : Env → Option ℕ → List Session → List Session
sessions_after env fib ss = map (λ (s : Session). (candidate env fib s).0) ss

abbrev pub with_candidate : Option Route → List Route → List Route
with_candidate none rs = rs
with_candidate (some r) rs = r ∷ rs

-- bgp_router_get_feasible_routes
unfoldable pub get_feasible_routes : Env → Option ℕ → List Session → List Route
get_feasible_routes env fib [] = []
get_feasible_routes env fib (s ∷ ss) =
    with_candidate (candidate env fib s).1 (get_feasible_routes env fib ss)

abbrev single_route : List Route → Option (Option Route)
single_route [] = some none
single_route (r ∷ []) = some (some r)
single_route (r ∷ r' ∷ rs) = none

-- The best of the candidates, if there is any; a single one is marked as depending on the IGP.
unfoldable pub best_route : Env → List Route → Option (Option Route)
unfolding decision_process_run
best_route env [] = some none
best_route env (r ∷ []) = some (some (marked r))
best_route env (r ∷ r' ∷ rs) =
    decision_process_run env.med env.router (r ∷ r' ∷ rs) >>= λ q. single_route q.0

-- The route of an Adj-RIB-In as the decision process leaves it, with its BEST flag.
abbrev pub best_flag_on : Route → List Session → List Session
best_flag_on r ss = change_adj_in (λ _. with_best true r) r.peer ss

abbrev pub old_flag_off : Option Route → List Session → List Session
old_flag_off none ss = ss
old_flag_off (some o) ss = best_flag_off o ss

-- The gateway of the BGP route in the routing table, once this one is inserted.
abbrev pub rt_add_route : Route → Option ℕ
rt_add_route r = some r.attr.next_hop

-- bgp_router_rt_del_route asserts that the routing table had a list of routes to the prefix, of any
-- type; `none` is the failed assertion.
abbrev pub rt_del_route : Env → Option ℕ → Option (Option ℕ)
rt_del_route env none = if env.other_routes then some none else none
rt_del_route env (some a) = some none

unfoldable pub update_best_route : Env → Bgp → List Session → Route → Option Bgp
unfolding disseminate
update_best_route env b ss r =
    disseminate env (some (with_best true r)) (best_flag_on r (old_flag_off b.loc_rib ss))
    >>= λ ss'.
        some (record b { peers = ss'; loc_rib = some (with_best true r); fib = rt_add_route r })

abbrev pub with_dp_igp : Bool → Route → Route
with_dp_igp t r = record r { flags = record (r.flags) { dp_igp = t } }

abbrev pub unchanged_best_route : Bgp → List Session → Route → Route → Bgp
unchanged_best_route b ss o r = record b {
  peers = best_flag_on r ss;
  loc_rib = some (with_dp_igp r.flags.dp_igp o);
  fib = rt_add_route r;
}

unfoldable pub no_best_route : Env → Bgp → List Session → Option Bgp
unfolding disseminate
no_best_route env b ss = elim b.loc_rib [
  | none ↦ some (record b { peers = ss })
  | some o ↦ rt_del_route env b.fib >>= λ fib. disseminate env none (best_flag_off o ss) >>= λ ss'.
      some (record b { peers = ss'; loc_rib = none; fib = fib })
]

unfoldable pub with_best_route : Env → Bgp → List Session → Route → Option Bgp
unfolding route_equals update_best_route
with_best_route env b ss r = elim b.loc_rib [
  | none ↦ update_best_route env b ss r
  | some o ↦ route_equals false false (env.ecomms_equal o.attr.ecomms r.attr.ecomms) o r >>= λ t.
      elim t [ true ↦ some (unchanged_best_route b ss o r) | false ↦ update_best_route env b ss r ]
]

unfoldable pub installed : Env → Bgp → List Session → Option Route → Option Bgp
unfolding no_best_route with_best_route
installed env b ss none = no_best_route env b ss
installed env b ss (some r) = with_best_route env b ss r

-- A local route is kept.
abbrev pub is_local : Option Route → Bool
is_local none = false
is_local (some r) = r.flags.internal

unfoldable pub decision_process : Env → Bgp → Option Bgp
unfolding get_feasible_routes best_route installed
decision_process env b =
    if is_local b.loc_rib
    then some b
    else best_route env (get_feasible_routes env b.fib b.peers) >>= λ best.
        installed env b (sessions_after env b.fib b.peers) best
