-- ===== src/Examples/Speakers.antt =====
-- A router of AS 1 with peers of AS 2 and AS 3 that announced a route, and one of AS 7.
use cbgp.Base.{
  ℕ, ◌≡◌, ◌≢◌, refl, subst, true, false, Option, none, some, List, [], ◌∷◌, map, All, arith,
  aborted,
}
use cbgp.Attr.Segment.{sequence}
use cbgp.Attr.Path.{AsPath, path_contains}
use cbgp.Attr.Comm.{comms_contains}
use cbgp.Net.Prefix.{ip_prefix_cmp}
use cbgp.Route.{Route, route_path_length}
use cbgp.Route.Compare.{route_equals}
use cbgp.Decision.{
  always_compare, decision_process_run, dp_rule_highest_pref, dp_rule_shortest_path,
  dp_rule_lowest_origin, dp_rule_lowest_med,
}
use cbgp.Filter.{filter_apply}
use cbgp.Advertise.{advertise_to_peer}
use cbgp.Advertise.Export.{exported}
use cbgp.Speaker.{
  active, done, SessionState, idle, openwait, established, success, Content, update, withdraw,
  opening, Message, Session, Bgp, Env, with_best,
}
use cbgp.Speaker.Process.{
  disseminate, disseminate_to_peer, get_feasible_routes, best_route, update_best_route,
  with_best_route, installed, decision_process, advertisement,
}
use cbgp.Speaker.Fsm.{open_session}
use cbgp.Speaker.Handle.{handle_message, open_rcvd}
use cbgp.Speaker.Routing.{IsInstalled, Agrees, decision_process-IsInstalled}
use cbgp.Speaker.Selection.{Selected, decision_process_best}
use cbgp.Speaker.Told.{Told, AllStepped, disseminate_lem, decision_process-Told}
use cbgp.Speaker.Steady.{Steady}
use cbgp.Speaker.Reach.{here, step, adds_peer, opens, handles, Reaches-Steady}
use cbgp.Speaker.Silent.{outgoing, equal_best_route}
use cbgp.Speaker.Networks.{local_route, add_network, del_network}
use cbgp.Speaker.Config.{add_peer}
use cbgp.Speaker.Stale.{del_network-add_network}
use cbgp.Examples.Routes.{router, neighbor, route_a, route_b, both-Comparable}
use cbgp.Examples.Adverts.{same}

abbrev env : Env
env = record {
  router = router;
  med = always_compare;
  default_pref = 100;
  intern = same;
  path_match = λ i p. some true;
  has_address = λ a. false;
  ecomms_equal = λ c d. true;
  resolves = λ fib a. true;
  send = λ fib a. success;
  reaches = λ fib virtual a. true;
  other_routes = false;
}

abbrev session : SessionState → ℕ → Option Route → Option Route → ℕ → List Message → Session
session x n i o k ms = record {
  view = neighbor n n;
  virtual = false;
  soft_restart = false;
  recording = false;
  state = x;
  filter_in = none;
  filter_out = none;
  adj_in = i;
  adj_out = o;
  send_seq_num = k;
  recv_seq_num = 0;
  last_error = success;
  sent = ms;
}

abbrev before : Bgp
before = record {
  peers =
      session established 2 (some route_a) none 0 []
      ∷ session established 3 (some route_b) none 0 []
      ∷ session established 7 none none 0 []
      ∷ [];
  loc_rib = none;
  local_net = none;
  fib = none;
}

-- The rule on MEDs leaves the route of AS 3.
abbrev best : Route
best = with_best true route_b

abbrev path_b : AsPath
path_b = record { type = sequence; asns = 9 ∷ 3 ∷ 1 ∷ [] } ∷ []

abbrev announcement : ℕ → Message
announcement n = record {
  seq_num = 0;
  peer_asn = 1;
  content =
      update (record (exported router (neighbor n n) best path_b) { peer = some (neighbor n n) });
}

abbrev next : Bgp
next = record {
  peers =
      session established 2 (some route_a) (some best) 1 (announcement 2 ∷ [])
      ∷ session established 3 (some best) none 0 []
      ∷ session established 7 none (some best) 1 (announcement 7 ∷ [])
      ∷ [];
  loc_rib = some best;
  local_net = none;
  fib = some 4;
}

best_runs : best_route env (route_a ∷ route_b ∷ []) ≡ some (some route_b)
unfolding best_route decision_process_run dp_rule_highest_pref dp_rule_shortest_path
    dp_rule_lowest_origin dp_rule_lowest_med route_path_length
best_runs = refl

gathered : get_feasible_routes env none before.peers ≡ route_a ∷ route_b ∷ []
unfolding get_feasible_routes
gathered = refl

-- The sessions as the dissemination finds them.
abbrev chosen : List Session
chosen =
    session established 2 (some route_a) none 0 []
    ∷ session established 3 (some best) none 0 []
    ∷ session established 7 none none 0 []
    ∷ []

-- A session that is not established yet.
abbrev inactive : Session
inactive = session active 8 (some route_a) none 0 []

sent_runs : disseminate env (some best) (inactive ∷ chosen) ≡ some (inactive ∷ next.peers)
unfolding disseminate disseminate_to_peer advertise_to_peer comms_contains path_contains
    filter_apply
sent_runs = refl

disseminate_lem_example : AllStepped env (some best) (inactive ∷ chosen) (inactive ∷ next.peers)
disseminate_lem_example =
    disseminate_lem env (some best) (inactive ∷ chosen) (inactive ∷ next.peers)
      (refl, (refl, (refl, (refl, tt)))) sent_runs

process_runs : decision_process env before ≡ some next
unfolding decision_process get_feasible_routes best_route installed with_best_route
    update_best_route disseminate disseminate_to_peer advertise_to_peer comms_contains path_contains
    filter_apply decision_process_run dp_rule_highest_pref dp_rule_shortest_path
    dp_rule_lowest_origin dp_rule_lowest_med route_path_length
process_runs = refl

decision_process-Told_example : All (Told env) next.peers
decision_process-Told_example =
    decision_process-Told env before next (refl, (refl, (refl, tt))) process_runs

decision_process-IsInstalled_example : IsInstalled next
decision_process-IsInstalled_example =
    decision_process-IsInstalled env before next refl process_runs

can_announce : All (λ s. advertisement env best s ≢ aborted) before.peers
unfolding advertise_to_peer comms_contains path_contains filter_apply
can_announce = ((λ e. cc), ((λ e. cc), ((λ e. cc), tt)))

is_best : (r : Route) → best_route env (route_a ∷ route_b ∷ []) ≡ some (some r) → route_b ≡ r
is_best r e = cc (best_runs, e)

decision_process_best_example :
    (b : Bgp) × (decision_process env before ≡ some b)
    × Selected env (route_a ∷ route_b ∷ []) none b.loc_rib
    × Agrees b.loc_rib b.fib
unfolding get_feasible_routes
decision_process_best_example =
    decision_process_best env before refl refl refl (omega arith) (both-Comparable always_compare)
      (λ r e.
        subst (λ t. All (λ s. advertisement env (with_best true t) s ≢ aborted) before.peers)
          (is_best r e) can_announce)
      (λ o r p e. absurd (cc))

still_best : best_route env (get_feasible_routes env next.fib next.peers) ≡ some (some route_b)
unfolding get_feasible_routes
still_best = best_runs

still_equal : route_equals false false true best route_b ≡ some true
unfolding route_equals ip_prefix_cmp
still_equal = refl

equal_best_route_example :
    (b : Bgp) × (decision_process env next ≡ some b)
    × (map outgoing b.peers ≡ map outgoing next.peers)
    × (b.fib ≡ some 4)
    × (b.loc_rib ≡ some best)
equal_best_route_example = equal_best_route env next best route_b refl refl still_best still_equal

local_announces :
    All
      (λ s. advertisement env (local_route env (record { network = 0; mask = 8 })) s ≢ aborted)
      next.peers
unfolding advertise_to_peer comms_contains path_contains filter_apply
local_announces = ((λ e. cc), ((λ e. cc), ((λ e. cc), tt)))

del_network-add_network_example :
    (c d : Bgp) × (add_network env (record { network = 0; mask = 8 }) next ≡ done success c)
    × (del_network env c ≡ done success d)
    × (d.loc_rib ≡ none)
    × (d.local_net ≡ none)
    × (d.fib ≡ some 4)
del_network-add_network_example =
    del_network-add_network env (record { network = 0; mask = 8 }) next refl local_announces

abbrev contents : List Content
contents = opening 1 ∷ withdraw ∷ []

abbrev sender : Session
sender = session established 2 none none 0 []

abbrev receiver : Session
receiver = session established 1 none none 5 []

abbrev with_id : ℕ → Session → Session
with_id n s = record s { view = record (s.view) { router_id = n } }

abbrev alone : Session → Bgp
alone s = record { peers = s ∷ []; loc_rib = none; local_net = none; fib = none }

abbrev asleep : Bgp
asleep = alone (with_id 0 (session idle 7 none none 0 []))

abbrev greeting : List Message
greeting = record { seq_num = 0; peer_asn = 1; content = opening 1 } ∷ []

abbrev waiting : Bgp
waiting = alone (with_id 0 (session openwait 7 none none 1 greeting))

abbrev awake : Bgp
awake = alone (record (session established 7 none none 1 greeting) { recv_seq_num = 1 })

abbrev reply : Message
reply = record { seq_num = 0; peer_asn = 7; content = opening 7 }

-- The router that the session is added to.
abbrev empty : Bgp
empty = record { peers = []; loc_rib = none; local_net = none; fib = none }

peer_runs : add_peer env 7 7 empty ≡ done success asleep
unfolding add_peer
peer_runs = refl

open_runs : open_session env 7 asleep ≡ done success waiting
unfolding open_session
open_runs = refl

reply_runs : handle_message env 7 reply waiting ≡ done success awake
unfolding handle_message open_rcvd
reply_runs = refl

Reaches-Steady_example : All Steady awake.peers
Reaches-Steady_example =
    Reaches-Steady
      (step (adds_peer env 7 7 success peer_runs)
        (step (opens env 7 success open_runs) (step (handles env 7 reply success reply_runs) here)))
      tt
