-- ===== src/Speaker/Reach.antt =====
-- The states that a router reaches (src/bgp/as.c, src/bgp/peer.c).
use cbgp.Base.{Bool, ◌≡◌, subst, Option, none, some, All, ℕ, ◌>>=◌, >>=-some}
use cbgp.Net.Prefix.{Prefix}
use cbgp.Route.{Route}
use cbgp.Speaker.{done, Error, success, duplicate, unspecified, Message, Bgp, Env}
use cbgp.Speaker.Process.{decision_process, disseminate}
use cbgp.Speaker.Fsm.{open_session, close_session, session_refresh}
use cbgp.Speaker.Handle.{handle_message}
use cbgp.Speaker.Networks.{local_route, add_network, del_network}
use cbgp.Filter.{Rules}
use cbgp.Speaker.Config.{
  add_peer, set_filter, set_nexthop, with_recording, set_record_stream, clear_adj_rib, clear_rib,
}
use cbgp.Speaker.Scan.{scan_rib, readv_prefix}
use cbgp.Speaker.Configured.{
  add_peer-Steady, set_filter-Steady, set_nexthop-Steady, clear_rib-Steady, scan_rib-Steady,
  readv_prefix-Steady,
}
use cbgp.Speaker.Every.{change_peer-All_same}
use cbgp.Speaker.Lasting.{decision_process-lasts, disseminate-lasts}
use cbgp.Speaker.Steady.{Steady, Steady-IsLasting, outcome, open_session-Steady}
use cbgp.Speaker.Shutdown.{close_session-Steady, session_refresh-Steady}
use cbgp.Speaker.Received.{handle_message-Steady}

-- One operation of the router. The routing, the router and its options may change between two.
pub data Step : Bgp → Bgp → Type 0 where
  opens :
      {b c : Bgp}
      → (env : Env) (addr : ℕ) (x : Error) → open_session env addr b ≡ done x c
      → Step b c
  closes :
      {b c : Bgp}
      → (env : Env) (addr : ℕ) (x : Error) → close_session env addr b ≡ done x c
      → Step b c
  refreshes : {b c : Bgp} → (env : Env) (addr : ℕ) → session_refresh env addr b ≡ some c → Step b c
  handles :
      {b c : Bgp}
      → (env : Env) (src : ℕ) (m : Message) (x : Error) → handle_message env src m b ≡ done x c
      → Step b c
  reruns : {b c : Bgp} → (env : Env) → decision_process env b ≡ some c → Step b c
  adds :
      {b c : Bgp}
      → (env : Env) (prefix : Prefix) (x : Error) → add_network env prefix b ≡ done x c
      → Step b c
  deletes : {b c : Bgp} → (env : Env) (x : Error) → del_network env b ≡ done x c → Step b c
  adds_peer :
      {b c : Bgp}
      → (env : Env) (asn addr : ℕ) (x : Error) → add_peer env asn addr b ≡ done x c
      → Step b c
  filters :
      {b c : Bgp}
      → (addr : ℕ) (input : Bool) (f : Option Rules) (x : Error)
      → set_filter addr input f b ≡ done x c
      → Step b c
  sets_nexthop :
      {b c : Bgp}
      → (env : Env) (addr a : ℕ) (x : Error) → set_nexthop env addr a b ≡ done x c
      → Step b c
  records : {b : Bgp} → (addr : ℕ) (t : Bool) → Step b (set_record_stream addr t b)
  clears : {b : Bgp} → Step b (clear_rib b)
  clears_adj : {b : Bgp} → Step b (clear_adj_rib b)
  scans : {b c : Bgp} → (env : Env) → scan_rib env b ≡ some c → Step b c
  readvertises : {b c : Bgp} → (env : Env) (addr : ℕ) → readv_prefix env addr b ≡ some c → Step b c

pub data Reaches : Bgp → Bgp → Type 0 where
  here : {b : Bgp} → Reaches b b
  step : {b c d : Bgp} → Step b c → Reaches c d → Reaches b d

result_kept :
    (b c : Bgp) (x y : Error) → All Steady b.peers → done x b ≡ done y c → All Steady c.peers
result_kept b c x y h e = subst (λ (d : Bgp). All Steady d.peers) (outcome b c x y e) h

add_network-Steady :
    (env : Env) (prefix : Prefix) (b c : Bgp) (x : Error)
    → All Steady b.peers
    → add_network env prefix b ≡ done x c
    → All Steady c.peers
unfolding add_network
add_network-Steady env prefix b c x h e = go b.local_net e
  where
    go :
        (o : Option Route)
        → (elim o [
          | some _ ↦ done duplicate b
          | none ↦ disseminate env (some (local_route env prefix)) b.peers >>= λ ss.
              done success (record b {
                peers = ss;
                loc_rib = some (local_route env prefix);
                local_net = some (local_route env prefix);
              })
        ])
          ≡ done x c
        → All Steady c.peers
    go (some r) e = result_kept b c duplicate x h e
    go none e =
        let (ss, p, f) =
          >>=-some (disseminate env (some (local_route env prefix)) b.peers) _ (c, x) e in
        result_kept _ c success x
          (disseminate-lasts env Steady (Steady-IsLasting env) (some (local_route env prefix))
            b.peers ss h p)
          f

del_network-Steady :
    (env : Env) (b c : Bgp) (x : Error)
    → All Steady b.peers
    → del_network env b ≡ done x c
    → All Steady c.peers
unfolding del_network
del_network-Steady env b c x h e = go b.local_net e
  where
    go :
        (o : Option Route)
        → (elim o [
          | none ↦ done unspecified b
          | some _ ↦ disseminate env none b.peers >>= λ ss.
              done success (record b { peers = ss; loc_rib = none; local_net = none })
        ])
          ≡ done x c
        → All Steady c.peers
    go none e = result_kept b c unspecified x h e
    go (some r) e =
        let (ss, p, f) = >>=-some (disseminate env none b.peers) _ (c, x) e in
        result_kept _ c success x
          (disseminate-lasts env Steady (Steady-IsLasting env) none b.peers ss h p) f

Step-Steady : {b c : Bgp} → Step b c → All Steady b.peers → All Steady c.peers
Step-Steady {b} {c} (opens env addr x e) h = open_session-Steady env addr b c x h e
Step-Steady {b} {c} (closes env addr x e) h = close_session-Steady env addr b c x h e
Step-Steady {b} {c} (refreshes env addr e) h = session_refresh-Steady env addr b c h e
Step-Steady {b} {c} (handles env src m x e) h = handle_message-Steady env src m b c x h e
Step-Steady {b} {c} (reruns env e) h =
    decision_process-lasts env Steady (Steady-IsLasting env) b c h e
Step-Steady {b} {c} (adds env prefix x e) h = add_network-Steady env prefix b c x h e
Step-Steady {b} {c} (deletes env x e) h = del_network-Steady env b c x h e
Step-Steady {b} {c} (adds_peer env asn addr x e) h = add_peer-Steady env asn addr b c x h e
Step-Steady {b} {c} (filters addr input f x e) h = set_filter-Steady addr input f b c x h e
Step-Steady {b} {c} (sets_nexthop env addr a x e) h = set_nexthop-Steady env addr a b c x h e
Step-Steady {b} (records addr t) h =
    change_peer-All_same Steady (with_recording t) addr b.peers (λ s k. k) h
Step-Steady {b} clears h = (clear_rib-Steady b h).0
Step-Steady {b} clears_adj h = (clear_rib-Steady b h).1
Step-Steady {b} {c} (scans env e) h = scan_rib-Steady env b c h e
Step-Steady {b} {c} (readvertises env addr e) h = readv_prefix-Steady env addr b c h e

-- Whatever a router does from a state with steady sessions on, such as one without peers - it adds or
-- configures peers (but for their flags), opens, closes or refreshes sessions, handles messages, runs
-- its decision process, scans or clears its RIBs, advertises a route again, adds or removes a local
-- network -, every session stays steady: it has router-ID 0 where it is idle, active or waits for an
-- OPEN message, a virtual peer is never waited for, and both sequence numbers fit an unsigned int.
pub Reaches-Steady : {b c : Bgp} → Reaches b c → All Steady b.peers → All Steady c.peers
Reaches-Steady here h = h
Reaches-Steady (step s r) h = Reaches-Steady r (Step-Steady s h)
