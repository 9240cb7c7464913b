-- ===== src/Speaker/Steady.antt =====
-- What holds of every session in every state that a router reaches: src/bgp/peer.c and src/bgp/as.c.
use cbgp.Base.{
  ℕ, ◌+◌, ◌%◌, ◌^◌, ◌<◌, ◌≡◌, refl, ap, subst, Bool, true, false, not, ◌&&◌, ◌||◌, Option, none,
  some, All, if◌then◌else◌, ◌>>=◌, >>=-some, some_injective, arith,
}
use cbgp.Route.{Route}
use cbgp.Speaker.{
  done, SessionState, idle, openwait, established, active, is_established, Error, success,
  invalid_state, opening, Session, Bgp, Env, peer_send, send_result,
}
use cbgp.Speaker.Process.{decision_process}
use cbgp.Speaker.Fsm.{
  find_peer, change_peer, put, with_state, with_error, session_cleared, without_adj_out, rescanned,
  rescan_adj_in, is_open, is_success, opened, virtual_up, virtual_down, resumed, open_virtual,
  open_session,
}
use cbgp.Speaker.Every.{find_peer-All, change_peer-All_same, IsLasting, sending-IsLasting}
use cbgp.Speaker.Lasting.{decision_process-lasts}

-- Only an established session has a router-ID, a virtual peer is never waited for, and the sequence
-- numbers are unsigned ints.
abbrev pub InState : SessionState → ℕ → Bool → Type 0
InState idle router_id virtual = router_id ≡ 0
InState openwait router_id virtual = (router_id ≡ 0) × (virtual ≡ false)
InState established router_id virtual = Unit
InState active router_id virtual = router_id ≡ 0

abbrev pub Steady : Session → Type 0
Steady s =
    InState s.state s.view.router_id s.virtual
    × (s.send_seq_num < 2 ^ 32)
    × (s.recv_seq_num < 2 ^ 32)

pub uint : (n : ℕ) → n % 2 ^ 32 < 2 ^ 32
uint n = omega arith

pub Steady-IsLasting : (env : Env) → IsLasting env Steady
Steady-IsLasting env =
    sending-IsLasting env Steady (λ s o h. h) (λ s c o h. (h.0, uint (s.send_seq_num + 1), h.2))

-- A rescan of an Adj-RIB-In.
pub rescan_adj_in-lasts :
    (env : Env) (P : Session → Type 0)
    → IsLasting env P
    → ((s : Session) → P s → P (without_adj_out s))
    → (clear : Bool) (addr : ℕ) (b c : Bgp) → All P b.peers
    → rescan_adj_in env clear addr b ≡ some c
    → All P c.peers
unfolding rescan_adj_in
rescan_adj_in-lasts env P lasts out clear addr b c h e =
    let (s, p, f) = >>=-some (find_peer addr b.peers) _ c e in
    let (d, q, g) = >>=-some (rescanned env (is_established s.state) b s.adj_in) _ c f in
    last (not (is_established s.state) && clear) d (scan (is_established s.state) s.adj_in d q) g
  where
    scan : (u : Bool) (o : Option Route) (d : Bgp) → rescanned env u b o ≡ some d → All P d.peers
    scan u none d q = subst (λ (x : Bgp). All P x.peers) (some_injective b d q) h
    scan u (some r) d q = go (u || r.flags.best) q
      where
        go : (v : Bool) → (if v then decision_process env b else some b) ≡ some d → All P d.peers
        go true q = decision_process-lasts env P lasts b d h q
        go false q = subst (λ (x : Bgp). All P x.peers) (some_injective b d q) h

    last :
        (u : Bool) (d : Bgp)
        → All P d.peers
        → some (if u then change_peer without_adj_out addr d else d) ≡ some c
        → All P c.peers
    last true d k g =
        subst (λ (x : Bgp). All P x.peers) (some_injective (change_peer without_adj_out addr d) c g)
          (change_peer-All_same P without_adj_out addr d.peers out k)
    last false d k g = subst (λ (x : Bgp). All P x.peers) (some_injective d c g) k

pub rescan_adj_in-Steady :
    (env : Env) (clear : Bool) (addr : ℕ) (b c : Bgp)
    → All Steady b.peers
    → rescan_adj_in env clear addr b ≡ some c
    → All Steady c.peers
rescan_adj_in-Steady env = rescan_adj_in-lasts env Steady (Steady-IsLasting env) (λ s h. h)

-- A result with its error code.
pub outcome : (b c : Bgp) (x y : Error) → done x b ≡ done y c → b ≡ c
outcome b c x y e = ap (λ (q : Bgp × Error). q.0) (some_injective _ _ e)

pub succeeds : (o : Option Bgp) (c : Bgp) (e : Error) → (o >>= done success) ≡ done e c → o ≡ some c
succeeds none c e h = absurd (cc)
succeeds (some d) c e h = ap some (outcome d c success e h)

pub change_peer-Steady :
    (f : Session → Session) (addr : ℕ) (b c : Bgp)
    → ((s : Session) → Steady s → Steady (f s))
    → All Steady b.peers
    → some (change_peer f addr b) ≡ some c
    → All Steady c.peers
change_peer-Steady f addr b c k h e =
    subst (λ (x : Bgp). All Steady x.peers) (some_injective (change_peer f addr b) c e)
      (change_peer-All_same Steady f addr b.peers k h)

pub positive : 0 < 2 ^ 32
positive = omega arith

opened-Steady :
    (env : Env) (e : Error) (s : Session) → s.virtual ≡ false → Steady s → Steady (opened env e s)
opened-Steady env e s v h = go (is_success e)
  where
    go :
        (t : Bool)
        → Steady (
            with_error e (elim t [
              | true ↦
                  with_state openwait (peer_send env (opening env.router.rid) (session_cleared s))
              | false ↦
                  with_state active
                    (session_cleared (peer_send env (opening env.router.rid) (session_cleared s)))
            ]))
    go true = ((refl, v), uint 1, positive)
    go false = (refl, positive, positive)

open_virtual-Steady :
    (env : Env) (s : Session) (b c : Bgp)
    → All Steady b.peers
    → open_virtual env s b ≡ some c
    → All Steady c.peers
open_virtual-Steady env s b c h e = go (env.reaches b.fib true s.view.addr) e
  where
    up : All Steady (change_peer virtual_up s.view.addr b).peers
    up =
        change_peer-All_same Steady virtual_up s.view.addr b.peers (λ t k. (tt, positive, positive))
          h

    resumed-Steady :
        (u : Bool) (d : Bgp)
        → (if u
            then rescan_adj_in env false s.view.addr (change_peer virtual_up s.view.addr b)
            else some (change_peer virtual_up s.view.addr b))
          ≡ some d
        → All Steady d.peers
    resumed-Steady true d q =
        rescan_adj_in-Steady env false s.view.addr (change_peer virtual_up s.view.addr b) d up q
    resumed-Steady false d q = subst (λ (x : Bgp). All Steady x.peers) (some_injective _ d q) up

    go :
        (u : Bool)
        → (if u
            then (resumed env s (change_peer virtual_up s.view.addr b) >>= λ d.
                some (change_peer (with_error success) s.view.addr d))
            else some (change_peer virtual_down s.view.addr b))
          ≡ some c
        → All Steady c.peers
    go true e =
        let (d, q, f) = >>=-some (resumed env s (change_peer virtual_up s.view.addr b)) _ c e in
        change_peer-Steady (with_error success) s.view.addr d c (λ t k. k)
          (resumed-Steady s.soft_restart d q) f
    go false e =
        change_peer-Steady virtual_down s.view.addr b c (λ t k. (refl, positive, positive)) h e

pub open_session-Steady :
    (env : Env) (addr : ℕ) (b c : Bgp) (x : Error)
    → All Steady b.peers
    → open_session env addr b ≡ done x c
    → All Steady c.peers
unfolding open_session
open_session-Steady env addr b c x h e =
    let (s, p, f) = >>=-some (find_peer addr b.peers) _ (c, x) e in
    go s (find_peer-All Steady addr b.peers s h p) (is_open s.state) s.virtual refl f
  where
    go :
        (s : Session)
        → Steady s
        → (u v : Bool) → s.virtual ≡ v
        → (if u
            then done invalid_state b
            else (if v
                then open_virtual env s b
                else some (put addr (opened env (send_result env b.fib (session_cleared s)) s) b))
              >>= done success)
          ≡ done x c
        → All Steady c.peers
    go s k true v q f = subst (λ (y : Bgp). All Steady y.peers) (outcome b c invalid_state x f) h
    go s k false true q f = open_virtual-Steady env s b c h (succeeds _ c x f)
    go s k false false q f =
        change_peer-Steady (λ _. opened env (send_result env b.fib (session_cleared s)) s) addr b c
          (λ _ _. opened-Steady env (send_result env b.fib (session_cleared s)) s q k) h
          (succeeds _ c x f)
