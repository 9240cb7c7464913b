-- ===== src/Speaker/Shutdown.antt =====
-- The closing and the refresh of a session keep sessions steady (src/bgp/peer.c).
use cbgp.Base.{
  ℕ, ◌+◌, ◌≡◌, refl, ap, ◌∙◌, subst, Bool, true, false, not, ◌&&◌, some, All, ◌==◌, if◌then◌else◌,
  ◌>>=◌, >>=-some, some_injective, ◌⊎◌, inl, inr,
}
use cbgp.Speaker.{
  done, SessionState, idle, openwait, established, active, Error, success, invalid_state, close,
  Session, Bgp, Env, peer_send,
}
use cbgp.Speaker.Fsm.{
  find_peer, change_peer, with_state, session_cleared, rescan_adj_in, is_idle, is_open, closed,
  close_session, asserted, session_refresh, open_session,
}
use cbgp.Speaker.Every.{change_peer-All, change_peer-All_same, IsLasting, sending-IsLasting}
use cbgp.Speaker.Steady.{
  Steady, rescan_adj_in-lasts, rescan_adj_in-Steady, outcome, succeeds, positive, uint,
  open_session-Steady,
}

-- Behind a close, the session of the address has no router-ID either.
abbrev Quiet : ℕ → Session → Type 0
Quiet addr s = Steady s × (((s.view.addr == addr) ≡ false) ⊎ (s.view.router_id ≡ 0))

Quiet-IsLasting : (env : Env) (addr : ℕ) → IsLasting env (Quiet addr)
Quiet-IsLasting env addr =
    sending-IsLasting env (Quiet addr) (λ s o h. h)
      (λ s c o h. ((h.0.0, uint (s.send_seq_num + 1), h.0.2), h.1))

closed-Quiet : (env : Env) (addr : ℕ) (s : Session) → Steady s → Quiet addr (closed env s)
closed-Quiet env addr s h = go (is_open s.state && not s.virtual)
  where
    go :
        (t : Bool)
        → Quiet addr (with_state idle (session_cleared (if t then peer_send env close s else s)))
    go true = ((refl, positive, positive), inr refl)
    go false = ((refl, positive, positive), inr refl)

close_session-Quiet :
    (env : Env) (addr : ℕ) (b c : Bgp)
    → All Steady b.peers
    → close_session env addr b ≡ done success c
    → All (Quiet addr) c.peers
unfolding close_session
close_session-Quiet env addr b c h e =
    let (s, p, f) = >>=-some (find_peer addr b.peers) _ (c, success) e in
    go (is_idle s.state) (not (s.virtual && s.soft_restart)) f
  where
    all_closed : All (Quiet addr) (change_peer (closed env) addr b).peers
    all_closed =
        change_peer-All Steady (Quiet addr) (closed env) addr b.peers
          (λ s _ k. closed-Quiet env addr s k) (λ s q k. (k, inl q)) h

    go :
        (u v : Bool)
        → (if u
            then done invalid_state b
            else rescan_adj_in env v addr (change_peer (closed env) addr b) >>= done success)
          ≡ done success c
        → All (Quiet addr) c.peers
    go true v f = absurd (cc)
    go false v f =
        rescan_adj_in-lasts env (Quiet addr) (Quiet-IsLasting env addr) (λ s k. k) v addr
          (change_peer (closed env) addr b) c all_closed (succeeds _ c success f)

pub close_session-Steady :
    (env : Env) (addr : ℕ) (b c : Bgp) (x : Error)
    → All Steady b.peers
    → close_session env addr b ≡ done x c
    → All Steady c.peers
unfolding close_session
close_session-Steady env addr b c x h e =
    let (s, p, f) = >>=-some (find_peer addr b.peers) _ (c, x) e in
    go (is_idle s.state) (not (s.virtual && s.soft_restart)) f
  where
    go :
        (u v : Bool)
        → (if u
            then done invalid_state b
            else rescan_adj_in env v addr (change_peer (closed env) addr b) >>= done success)
          ≡ done x c
        → All Steady c.peers
    go true v f = subst (λ (y : Bgp). All Steady y.peers) (outcome b c invalid_state x f) h
    go false v f =
        rescan_adj_in-Steady env v addr (change_peer (closed env) addr b) c
          (change_peer-All_same Steady (closed env) addr b.peers
            (λ s k. (closed-Quiet env addr s k).0) h)
          (succeeds _ c x f)

asserted-some : (q : Bgp × Error) (c : Bgp) → asserted q ≡ some c → q ≡ (c, success)
asserted-some (b, success) c e = ap (λ (d : Bgp). (d, success)) (some_injective b c e)
asserted-some (b, _) c e = absurd (cc)

pub session_refresh-Steady :
    (env : Env) (addr : ℕ) (b c : Bgp)
    → All Steady b.peers
    → session_refresh env addr b ≡ some c
    → All Steady c.peers
unfolding session_refresh
session_refresh-Steady env addr b c h e =
    let (s, p, f) = >>=-some (find_peer addr b.peers) _ c e in
    go s.state (env.reaches b.fib s.virtual addr) f
  where
    kept : some b ≡ some c → All Steady c.peers
    kept f = subst (λ (y : Bgp). All Steady y.peers) (some_injective b c f) h

    down :
        (u : Bool)
        → (if u
            then some b
            else close_session env addr b >>= λ q.
                asserted q >>= λ d. some (change_peer (with_state active) addr d))
          ≡ some c
        → All Steady c.peers
    down true f = kept f
    down false f =
        let (q, k, g) = >>=-some (close_session env addr b) _ c f in
        let (d, l, i) = >>=-some (asserted q) _ c g in
        let quiet = close_session-Quiet env addr b d h (k ∙ ap some (asserted-some q d l)) in
        subst (λ (y : Bgp). All Steady y.peers)
          (some_injective (change_peer (with_state active) addr d) c i)
          (change_peer-All (Quiet addr) Steady (with_state active) addr d.peers at_peer
            (λ s _ n. n.0) quiet)
      where
        at_peer :
            (s : Session)
            → (s.view.addr == addr) ≡ true
            → Quiet addr s
            → Steady (with_state active s)
        at_peer s e (n, inl k) = absurd (cc)
        at_peer s e (n, inr k) = (k, n.1, n.2)

    go :
        (x : SessionState) (u : Bool)
        → (elim x [
          | idle ↦ some b
          | active ↦ if u then open_session env addr b >>= asserted else some b
          | _ ↦
              if u
              then some b
              else close_session env addr b >>= λ q.
                  asserted q >>= λ d. some (change_peer (with_state active) addr d)
        ])
          ≡ some c
        → All Steady c.peers
    go idle u f = kept f
    go openwait u f = down u f
    go established u f = down u f
    go active true f =
        let (q, k, g) = >>=-some (open_session env addr b) _ c f in
        open_session-Steady env addr b c success h (k ∙ ap some (asserted-some q c g))
    go active false f = kept f
