-- ===== src/Speaker/Received.antt =====
-- The handling of a received message keeps sessions steady (src/bgp/peer.c, src/bgp/as.c).
use cbgp.Base.{
  ℕ, ◌+◌, ◌≡◌, refl, subst, Bool, true, false, Option, none, some, All, if◌then◌else◌, ◌>>=◌,
  >>=-some, some_injective,
}
use cbgp.Route.{Route}
use cbgp.Speaker.{
  done, SessionState, idle, openwait, established, active, Error, success, unexpected, out_of_seq,
  Content, update, withdraw, close, opening, Message, Session, Bgp, Env, peer_send,
}
use cbgp.Speaker.Process.{disseminate_to_peer}
use cbgp.Speaker.Fsm.{
  find_peer, change_peer, put, with_state, with_router_id, session_cleared, rescan_adj_in,
}
use cbgp.Speaker.Handle.{
  current_route, loc_rib_sent, loc_rib_to, open_rcvd, close_rcvd, seqnum_check, counted, dispatched,
  handle_message,
}
use cbgp.Speaker.Every.{find_peer-All}
use cbgp.Speaker.Lasting.{disseminate_to_peer-lasts}
use cbgp.Speaker.Steady.{
  Steady, Steady-IsLasting, rescan_adj_in-Steady, outcome, succeeds, positive, uint,
  change_peer-Steady,
}
use cbgp.Speaker.Learnt.{changed, update_rcvd-Steady, withdraw_rcvd-Steady}

loc_rib_to-Steady :
    (env : Env) (addr : ℕ) (s : Session) (b c : Bgp)
    → Steady s
    → All Steady b.peers
    → loc_rib_to env addr s b ≡ some c
    → All Steady c.peers
loc_rib_to-Steady env addr s b c k h e =
    let (t, p, f) = >>=-some (loc_rib_sent env (put addr s b) s) _ c e in
    change_peer-Steady (λ _. t) addr b c (λ _ _. go (current_route (put addr s b)) t p) h
      (folded t f)
  where
    go :
        (o : Option Route) (t : Session)
        → (elim o [ none ↦ some s | some r ↦ disseminate_to_peer env (some r) s ]) ≡ some t
        → Steady t
    go none t p = subst Steady (some_injective s t p) k
    go (some r) t p = disseminate_to_peer-lasts env Steady (Steady-IsLasting env) (some r) s t k p

    folded :
        (t : Session) → some (put addr t b) ≡ some c → some (change_peer (λ _. t) addr b) ≡ some c
    folded t f = f

open_rcvd-Steady :
    (env : Env) (addr rid : ℕ) (s : Session) (b c : Bgp)
    → Steady s
    → All Steady b.peers
    → open_rcvd env addr rid s b ≡ some c
    → All Steady c.peers
unfolding open_rcvd
open_rcvd-Steady env addr rid s b c k h e = go s.virtual s.state e
  where
    go :
        (u : Bool) (x : SessionState)
        → (if u then none else elim x [
          | active ↦
              loc_rib_to env addr
                (peer_send env (opening env.router.rid) (with_state established s))
                b
          | openwait ↦ loc_rib_to env addr (with_router_id rid (with_state established s)) b
          | _ ↦ none
        ])
          ≡ some c
        → All Steady c.peers
    go true x e = absurd (cc)
    go false active e =
        loc_rib_to-Steady env addr
          (peer_send env (opening env.router.rid) (with_state established s)) b c
          (tt, uint (s.send_seq_num + 1), k.2) h e
    go false openwait e =
        loc_rib_to-Steady env addr (with_router_id rid (with_state established s)) b c
          (tt, k.1, k.2) h e
    go false idle e = absurd (cc)
    go false established e = absurd (cc)

close_rcvd-Steady :
    (env : Env) (addr : ℕ) (s : Session) (b c : Bgp)
    → All Steady b.peers
    → close_rcvd env addr s b ≡ some c
    → All Steady c.peers
unfolding close_rcvd
close_rcvd-Steady env addr s b c h e = go s.virtual s.state e
  where
    down :
        rescan_adj_in env true addr
            (change_peer (λ t. with_state active (session_cleared t)) addr b)
          ≡ some c
        → All Steady c.peers
    down e =
        rescan_adj_in-Steady env true addr
          (change_peer (λ t. with_state active (session_cleared t)) addr b) c
          (changed (λ t. with_state active (session_cleared t)) addr b
            (λ t k. (refl, positive, positive)) h)
          e

    go :
        (u : Bool) (x : SessionState)
        → (if u then none else elim x [
          | established ↦
              rescan_adj_in env true addr
                (change_peer (λ t. with_state active (session_cleared t)) addr b)
          | openwait ↦
              rescan_adj_in env true addr
                (change_peer (λ t. with_state active (session_cleared t)) addr b)
          | _ ↦ some b
        ])
          ≡ some c
        → All Steady c.peers
    go true x e = absurd (cc)
    go false established e = down e
    go false openwait e = down e
    go false idle e = subst (λ (y : Bgp). All Steady y.peers) (some_injective b c e) h
    go false active e = subst (λ (y : Bgp). All Steady y.peers) (some_injective b c e) h

dispatched-Steady :
    (env : Env) (addr : ℕ) (m : Content) (s : Session) (b c : Bgp)
    → Steady s
    → All Steady b.peers
    → dispatched env addr m s b ≡ some c
    → All Steady c.peers
dispatched-Steady env addr (update r) s b c k h e = update_rcvd-Steady env addr r s b c h e
dispatched-Steady env addr withdraw s b c k h e = withdraw_rcvd-Steady env addr s b c h e
dispatched-Steady env addr close s b c k h e = close_rcvd-Steady env addr s b c h e
dispatched-Steady env addr (opening rid) s b c k h e = open_rcvd-Steady env addr rid s b c k h e

counted-Steady : (s : Session) → Steady s → Steady (counted s)
counted-Steady s k = (k.0, k.1, uint (s.recv_seq_num + 1))

pub handle_message-Steady :
    (env : Env) (src : ℕ) (m : Message) (b c : Bgp) (x : Error)
    → All Steady b.peers
    → handle_message env src m b ≡ done x c
    → All Steady c.peers
unfolding handle_message
handle_message-Steady env src m b c x h e =
    go (find_peer src b.peers) (find_peer-All Steady src b.peers) e
  where
    kept : (y : Error) → done y b ≡ done x c → All Steady c.peers
    kept y f = subst (λ (d : Bgp). All Steady d.peers) (outcome b c y x f) h

    checked :
        (s : Session) (u : Bool)
        → Steady s
        → (if u
            then (dispatched env src m.content (counted s) (change_peer counted src b)
                >>= done success)
            else done out_of_seq b)
          ≡ done x c
        → All Steady c.peers
    checked s true k f =
        dispatched-Steady env src m.content (counted s) (change_peer counted src b) c
          (counted-Steady s k) (changed counted src b counted-Steady h) (succeeds _ c x f)
    checked s false k f = kept out_of_seq f

    go :
        (o : Option Session)
        → ((s : Session) → All Steady b.peers → o ≡ some s → Steady s)
        → (elim o [
          | none ↦ done unexpected b
          | some s ↦
              if seqnum_check s m
              then (dispatched env src m.content (counted s) (change_peer counted src b)
                  >>= done success)
              else done out_of_seq b
        ])
          ≡ done x c
        → All Steady c.peers
    go none k f = kept unexpected f
    go (some s) k f = checked s (seqnum_check s m) (k s h refl) f
