-- ===== src/Speaker/Learnt.antt =====
-- Updates and withdraws that are handled keep sessions steady (src/bgp/peer.c, src/bgp/as.c).
use cbgp.Base.{
  ℕ, ◌≡◌, subst, Bool, true, false, Option, none, some, All, if◌then◌else◌, >>=-some,
  some_injective,
}
use cbgp.Route.{Route}
use cbgp.Speaker.{SessionState, idle, openwait, established, active, Session, Bgp, Env}
use cbgp.Speaker.Process.{decision_process}
use cbgp.Speaker.Fsm.{find_peer, change_peer, with_state}
use cbgp.Speaker.Handle.{
  route_eligible, received, accepted_flags, with_adj_in, was_best, replaced, process_update,
  not_eligible, withdrawn, process_withdraw, update_rcvd, withdraw_rcvd,
}
use cbgp.Speaker.Every.{change_peer-All_same}
use cbgp.Speaker.Lasting.{decision_process-lasts}
use cbgp.Speaker.Steady.{Steady, Steady-IsLasting, change_peer-Steady}

pub changed :
    (f : Session → Session) (addr : ℕ) (b : Bgp)
    → ((s : Session) → Steady s → Steady (f s))
    → All Steady b.peers
    → All Steady (change_peer f addr b).peers
changed f addr b k h = change_peer-All_same Steady f addr b.peers k h

run-Steady :
    (env : Env) (b c : Bgp)
    → All Steady b.peers
    → decision_process env b ≡ some c
    → All Steady c.peers
run-Steady env = decision_process-lasts env Steady (Steady-IsLasting env)

process_update-Steady :
    (env : Env) (addr : ℕ) (r : Route) (b c : Bgp)
    → All Steady b.peers
    → process_update env addr r b ≡ some c
    → All Steady c.peers
unfolding process_update
process_update-Steady env addr r b c h e =
    let (s, p, f) = >>=-some (find_peer addr b.peers) _ c e in
    let (o, q, g) = >>=-some (route_eligible env s (received env s r)) _ c f in go s o g
  where
    refused :
        (u : Bool) (d : Bgp)
        → All Steady d.peers
        → (if u then decision_process env d else some d) ≡ some c
        → All Steady c.peers
    refused true d k g = run-Steady env d c k g
    refused false d k g = subst (λ (y : Bgp). All Steady y.peers) (some_injective d c g) k

    go : (s : Session) (o : Option Route) → replaced env addr s b o ≡ some c → All Steady c.peers
    go s none g =
        refused (was_best s.adj_in) (change_peer (with_adj_in none) addr b)
          (changed (with_adj_in none) addr b (λ t k. k) h) g
    go s (some t) g =
        run-Steady env (change_peer (with_adj_in (some (accepted_flags env b.fib s t))) addr b) c
          (changed (with_adj_in (some (accepted_flags env b.fib s t))) addr b (λ u k. k) h) g

process_withdraw-Steady :
    (env : Env) (addr : ℕ) (b c : Bgp)
    → All Steady b.peers
    → process_withdraw env addr b ≡ some c
    → All Steady c.peers
unfolding process_withdraw
process_withdraw-Steady env addr b c h e =
    let (s, p, f) = >>=-some (find_peer addr b.peers) _ c e in go s.adj_in f
  where
    go : (o : Option Route) → withdrawn env addr b o ≡ some c → All Steady c.peers
    go none f = subst (λ (y : Bgp). All Steady y.peers) (some_injective b c f) h
    go (some r) f =
        let (d, p, g) =
          >>=-some (decision_process env (change_peer (with_adj_in (some (not_eligible r))) addr b))
            _ c f in
        change_peer-Steady (with_adj_in none) addr d c (λ t k. k)
          (run-Steady env (change_peer (with_adj_in (some (not_eligible r))) addr b) d
            (changed (with_adj_in (some (not_eligible r))) addr b (λ t k. k) h) p)
          g

establish : (s : Session) → Steady s → Steady (with_state established s)
establish s k = (tt, k.1, k.2)

pub update_rcvd-Steady :
    (env : Env) (addr : ℕ) (r : Route) (s : Session) (b c : Bgp)
    → All Steady b.peers
    → update_rcvd env addr r s b ≡ some c
    → All Steady c.peers
unfolding update_rcvd
update_rcvd-Steady env addr r s b c h e = go s.state e
  where
    go :
        (x : SessionState)
        → (elim x [
          | openwait ↦ process_update env addr r (change_peer (with_state established) addr b)
          | established ↦ process_update env addr r b
          | _ ↦ none
        ])
          ≡ some c
        → All Steady c.peers
    go openwait e =
        process_update-Steady env addr r (change_peer (with_state established) addr b) c
          (changed (with_state established) addr b establish h) e
    go established e = process_update-Steady env addr r b c h e
    go idle e = absurd (cc)
    go active e = absurd (cc)

pub withdraw_rcvd-Steady :
    (env : Env) (addr : ℕ) (s : Session) (b c : Bgp)
    → All Steady b.peers
    → withdraw_rcvd env addr s b ≡ some c
    → All Steady c.peers
unfolding withdraw_rcvd
withdraw_rcvd-Steady env addr s b c h e = go s.state e
  where
    go :
        (x : SessionState)
        → (elim x [
          | openwait ↦ process_withdraw env addr (change_peer (with_state established) addr b)
          | established ↦ process_withdraw env addr b
          | _ ↦ none
        ])
          ≡ some c
        → All Steady c.peers
    go openwait e =
        process_withdraw-Steady env addr (change_peer (with_state established) addr b) c
          (changed (with_state established) addr b establish h) e
    go established e = process_withdraw-Steady env addr b c h e
    go idle e = absurd (cc)
    go active e = absurd (cc)
