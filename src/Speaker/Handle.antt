-- ===== src/Speaker/Handle.antt =====
-- The messages that a router receives: src/bgp/peer.c, and bgp_router_handle_message of src/bgp/as.c.
-- `none` is an abort.
use cbgp.Base.{
  ℕ, ◌+◌, ◌%◌, ◌^◌, Bool, true, false, not, ◌||◌, Option, none, some, List, [], ◌∷◌, ◌==◌,
  if◌then◌else◌, ◌>>=◌,
}
use cbgp.Attr.Path.{path_contains}
use cbgp.Route.{Peer, Route}
use cbgp.Filter.{filter_apply}
use cbgp.Speaker.{
  done, openwait, established, active, Error, success, unexpected, out_of_seq, Content, update,
  withdraw, close, opening, Message, Session, Bgp, Env, peer_send,
}
use cbgp.Speaker.Process.{decision_process, disseminate_to_peer, feasible_route}
use cbgp.Speaker.Fsm.{
  find_peer, change_peer, put, with_state, with_router_id, session_cleared, rescan_adj_in,
}

abbrev cluster_list_contains : List ℕ → ℕ → Bool
cluster_list_contains [] id = false
cluster_list_contains (c ∷ cs) id = c == id || cluster_list_contains cs id

abbrev route_cluster_list_contains : Route → ℕ → Bool
route_cluster_list_contains r id = elim r.attr.cluster_list [
  | none ↦ false
  | some cs ↦ cluster_list_contains cs id
]

abbrev is_originator : Option ℕ → ℕ → Bool
is_originator none id = false
is_originator (some o) id = o == id

-- bgp_peer_route_eligible: the route as the input filter leaves it, or the inner `none`. The input
-- communities have no effect in the default build.
unfoldable pub route_eligible : Env → Session → Route → Option (Option Route)
unfolding path_contains filter_apply
route_eligible env s r =
    if not (path_contains r.attr.path_ref env.router.asn == 0)
    then some none
    else if is_originator r.attr.originator env.router.rid
    then some none
    else if route_cluster_list_contains r env.router.cluster_id
    then some none
    else filter_apply env.intern env.path_match env.has_address env.router s.filter_in r

-- LOCAL-PREF is session_cleared on an external session.
abbrev pub received : Env → Session → Route → Route
received env s r =
    if s.view.asn == env.router.asn
    then record r { peer = some s.view }
    else record r { peer = some s.view; attr = record (r.attr) { local_pref = env.default_pref } }

abbrev pub accepted_flags : Env → Option ℕ → Session → Route → Route
accepted_flags env fib s r = record r {
  flags = record (r.flags) {
    best = false;
    internal = false;
    eligible = true;
    feasible = feasible_route env fib r;
    rr_client = s.view.rr_client;
  };
}

abbrev pub with_adj_in : Option Route → Session → Session
with_adj_in o s = record s { adj_in = o }

abbrev pub was_best : Option Route → Bool
was_best none = false
was_best (some r) = r.flags.best

-- What is done with a route that the input filters accept or refuse.
abbrev pub replaced : Env → ℕ → Session → Bgp → Option Route → Option Bgp
replaced env addr s b none =
    let c = change_peer (with_adj_in none) addr b in
    if was_best s.adj_in then decision_process env c else some c
replaced env addr s b (some r) =
    decision_process env (change_peer (with_adj_in (some (accepted_flags env b.fib s r))) addr b)

unfoldable pub process_update : Env → ℕ → Route → Bgp → Option Bgp
unfolding route_eligible decision_process
process_update env addr r b = find_peer addr b.peers >>= λ s.
    route_eligible env s (received env s r) >>= λ o. replaced env addr s b o

abbrev pub not_eligible : Route → Route
not_eligible r = record r { flags = record (r.flags) { eligible = false } }

abbrev pub withdrawn : Env → ℕ → Bgp → Option Route → Option Bgp
withdrawn env addr b none = some b
withdrawn env addr b (some r) =
    decision_process env (change_peer (with_adj_in (some (not_eligible r))) addr b) >>= λ c.
    some (change_peer (with_adj_in none) addr c)

unfoldable pub process_withdraw : Env → ℕ → Bgp → Option Bgp
unfolding decision_process
process_withdraw env addr b = find_peer addr b.peers >>= λ s. withdrawn env addr b s.adj_in

-- UPDATE and WITHDRAW establish a session that waits for an OPEN message.
unfoldable pub update_rcvd : Env → ℕ → Route → Session → Bgp → Option Bgp
unfolding process_update
update_rcvd env addr r s b = elim s.state [
  | openwait ↦ process_update env addr r (change_peer (with_state established) addr b)
  | established ↦ process_update env addr r b
  | _ ↦ none
]

unfoldable pub withdraw_rcvd : Env → ℕ → Session → Bgp → Option Bgp
unfolding process_withdraw
withdraw_rcvd env addr s b = elim s.state [
  | openwait ↦ process_withdraw env addr (change_peer (with_state established) addr b)
  | established ↦ process_withdraw env addr b
  | _ ↦ none
]

-- The peer of a route, as its session now has it.
abbrev pub current_peer : List Session → Option Peer → Option Peer
current_peer ss none = none
current_peer ss (some p) = elim (find_peer p.addr ss) [ none ↦ some p | some s ↦ some s.view ]

abbrev pub current_route : Bgp → Option Route
current_route b = elim b.loc_rib [
  | none ↦ none
  | some r ↦ some (record r { peer = current_peer b.peers r.peer })
]

-- The Loc-RIB is disseminated to a session that an OPEN message establishes.
abbrev pub loc_rib_sent : Env → Bgp → Session → Option Session
loc_rib_sent env b s = elim (current_route b) [
  | none ↦ some s
  | some r ↦ disseminate_to_peer env (some r) s
]

abbrev pub loc_rib_to : Env → ℕ → Session → Bgp → Option Bgp
loc_rib_to env addr s b = loc_rib_sent env (put addr s b) s >>= λ t. some (put addr t b)

-- The router-ID of the message is stored where the session waited for it.
unfoldable pub open_rcvd : Env → ℕ → ℕ → Session → Bgp → Option Bgp
unfolding disseminate_to_peer
open_rcvd env addr rid s b = if s.virtual then none else elim s.state [
  | active ↦
      loc_rib_to env addr (peer_send env (opening env.router.rid) (with_state established s)) b
  | openwait ↦ loc_rib_to env addr (with_router_id rid (with_state established s)) b
  | _ ↦ none
]

unfoldable pub close_rcvd : Env → ℕ → Session → Bgp → Option Bgp
unfolding rescan_adj_in
close_rcvd env addr s b = if s.virtual then none else elim s.state [
  | established ↦
      rescan_adj_in env true addr (change_peer (λ t. with_state active (session_cleared t)) addr b)
  | openwait ↦
      rescan_adj_in env true addr (change_peer (λ t. with_state active (session_cleared t)) addr b)
  | _ ↦ some b
]

abbrev pub is_close : Content → Bool
is_close close = true
is_close _ = false

-- _bgp_peer_seqnum_check: the number must fit, but for a virtual peer or a CLOSE message.
abbrev pub seqnum_check : Session → Message → Bool
seqnum_check s m = s.virtual || s.recv_seq_num == m.seq_num || is_close m.content

abbrev pub counted : Session → Session
counted s = record s { recv_seq_num = (s.recv_seq_num + 1) % 2 ^ 32 }

abbrev pub dispatched : Env → ℕ → Content → Session → Bgp → Option Bgp
dispatched env addr (update r) s b = update_rcvd env addr r s b
dispatched env addr withdraw s b = withdraw_rcvd env addr s b
dispatched env addr close s b = close_rcvd env addr s b
dispatched env addr (opening rid) s b = open_rcvd env addr rid s b

-- bgp_router_handle_message and bgp_peer_handle_message.
unfoldable pub handle_message : Env → ℕ → Message → Bgp → Option (Bgp × Error)
unfolding update_rcvd withdraw_rcvd close_rcvd open_rcvd
handle_message env src m b = elim (find_peer src b.peers) [
  | none ↦ done unexpected b
  | some s ↦
      if seqnum_check s m
      then (dispatched env src m.content (counted s) (change_peer counted src b) >>= done success)
      else done out_of_seq b
]
