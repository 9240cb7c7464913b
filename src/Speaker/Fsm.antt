-- ===== src/Speaker/Fsm.antt =====
-- The state machine of a session: its opening and closing (src/bgp/peer.c), and bgp_router_start,
-- bgp_router_stop and bgp_router_reset (src/bgp/as.c). A session is named by the address of its peer.
-- `none` is an abort, or an address without a peer.
use cbgp.Base.{
  ℕ, Bool, true, false, not, ◌&&◌, ◌||◌, Option, none, some, List, [], ◌∷◌, map, ◌==◌,
  if◌then◌else◌, ◌>>=◌,
}
use cbgp.Route.{Route}
use cbgp.Speaker.{
  done, SessionState, idle, openwait, established, active, is_established, Error, success,
  invalid_state, unreachable, unexpected, close, opening, Session, Bgp, Env, peer_send, send_result,
}
use cbgp.Speaker.Process.{decision_process}

-- bgp_peers_find
abbrev pub find_peer : ℕ → List Session → Option Session
find_peer addr [] = none
find_peer addr (s ∷ ss) = if s.view.addr == addr then some s else find_peer addr ss

abbrev pub change_if : (Session → Session) → ℕ → Session → Session
change_if f addr s = if s.view.addr == addr then f s else s

-- A change of the session with the peer of the given address.
abbrev pub change_peer : (Session → Session) → ℕ → Bgp → Bgp
change_peer f addr b = record b { peers = map (change_if f addr) b.peers }

abbrev pub put : ℕ → Session → Bgp → Bgp
put addr s b = change_peer (λ _. s) addr b

abbrev pub with_state : SessionState → Session → Session
with_state x s = record s { state = x }

abbrev pub with_error : Error → Session → Session
with_error e s = record s { last_error = e }

abbrev pub with_router_id : ℕ → Session → Session
with_router_id n s = record s { view = record (s.view) { router_id = n } }

-- The sequence numbers and the router-ID are set to 0.
abbrev pub session_cleared : Session → Session
session_cleared s = record (with_router_id 0 s) { send_seq_num = 0; recv_seq_num = 0 }

abbrev pub without_adj_out : Session → Session
without_adj_out s = record s { adj_out = none }

-- _bgp_peer_enable_adjribin and _bgp_peer_disable_adjribin for the route of the Adj-RIB-In.
abbrev pub rescanned : Env → Bool → Bgp → Option Route → Option Bgp
rescanned env up b none = some b
rescanned env up b (some r) = if up || r.flags.best then decision_process env b else some b

-- _bgp_peer_rescan_adjribin clears RIB_OUT, where it says so.
unfoldable pub rescan_adj_in : Env → Bool → ℕ → Bgp → Option Bgp
unfolding decision_process
rescan_adj_in env clear addr b = find_peer addr b.peers >>= λ s.
    rescanned env (is_established s.state) b s.adj_in >>= λ c.
    some (if not (is_established s.state) && clear then change_peer without_adj_out addr c else c)

abbrev pub is_open : SessionState → Bool
is_open openwait = true
is_open established = true
is_open _ = false

abbrev pub is_idle : SessionState → Bool
is_idle idle = true
is_idle _ = false

abbrev pub is_success : Error → Bool
is_success success = true
is_success _ = false

-- An OPEN message is sent, with the given result.
abbrev pub opened : Env → Error → Session → Session
opened env e s = with_error e (elim (is_success e) [
  | true ↦ with_state openwait (peer_send env (opening env.router.rid) (session_cleared s))
  | false ↦
      with_state active
        (session_cleared (peer_send env (opening env.router.rid) (session_cleared s)))
])

abbrev pub virtual_up : Session → Session
virtual_up s = with_router_id s.view.addr (with_state established (session_cleared s))

abbrev pub virtual_down : Session → Session
virtual_down s = with_error unreachable (with_state active (session_cleared s))

abbrev pub resumed : Env → Session → Bgp → Option Bgp
resumed env s b = if s.soft_restart then rescan_adj_in env false s.view.addr b else some b

-- The part of bgp_peer_open_session for virtual peers.
abbrev pub open_virtual : Env → Session → Bgp → Option Bgp
open_virtual env s b =
    if env.reaches b.fib true s.view.addr
    then (resumed env s (change_peer virtual_up s.view.addr b) >>= λ c.
        some (change_peer (with_error success) s.view.addr c))
    else some (change_peer virtual_down s.view.addr b)

unfoldable pub open_session : Env → ℕ → Bgp → Option (Bgp × Error)
unfolding rescan_adj_in
open_session env addr b = find_peer addr b.peers >>= λ s.
    if is_open s.state
    then done invalid_state b
    else (if s.virtual
        then open_virtual env s b
        else some (put addr (opened env (send_result env b.fib (session_cleared s)) s) b))
      >>= done success

abbrev pub closed : Env → Session → Session
closed env s =
    with_state idle
      (session_cleared (if is_open s.state && not s.virtual then peer_send env close s else s))

unfoldable pub close_session : Env → ℕ → Bgp → Option (Bgp × Error)
unfolding rescan_adj_in
close_session env addr b = find_peer addr b.peers >>= λ s.
    if is_idle s.state
    then done invalid_state b
    else rescan_adj_in env (not (s.virtual && s.soft_restart)) addr
        (change_peer (closed env) addr b)
      >>= done success

-- The assertions that a session was opened or closed.
abbrev pub asserted : Bgp × Error → Option Bgp
asserted (b, success) = some b
asserted _ = none

unfoldable pub session_refresh : Env → ℕ → Bgp → Option Bgp
unfolding open_session close_session
session_refresh env addr b = find_peer addr b.peers >>= λ s. elim s.state [
  | idle ↦ some b
  | active ↦
      if env.reaches b.fib s.virtual addr then open_session env addr b >>= asserted else some b
  | _ ↦
      if env.reaches b.fib s.virtual addr
      then some b
      else close_session env addr b >>= λ q.
          asserted q >>= λ c. some (change_peer (with_state active) addr c)
]

-- The loops of bgp_router_start and bgp_router_stop over the addresses of the peers.
abbrev pub carry_on : Bgp × Error → (Bgp → Option (Bgp × Error)) → Option (Bgp × Error)
carry_on (b, success) f = f b
carry_on (b, e) f = done unexpected b

unfoldable pub for_peers : (ℕ → Bgp → Option (Bgp × Error)) → List ℕ → Bgp → Option (Bgp × Error)
for_peers f [] b = done success b
for_peers f (a ∷ as') b = f a b >>= λ q. carry_on q (λ c. for_peers f as' c)

abbrev pub addresses : Bgp → List ℕ
addresses b = map (λ (s : Session). s.view.addr) b.peers

unfoldable pub start : Env → Bgp → Option (Bgp × Error)
unfolding open_session for_peers
start env b = for_peers (open_session env) (addresses b) b

unfoldable pub stop : Env → Bgp → Option (Bgp × Error)
unfolding close_session for_peers
stop env b = for_peers (close_session env) (addresses b) b

unfoldable pub restart : Env → Bgp → Option (Bgp × Error)
unfolding start stop
restart env b = stop env b >>= λ q. carry_on q (λ c. start env c)
