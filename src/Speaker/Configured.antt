-- ===== src/Speaker/Configured.antt =====
-- The configuration of peers and the scan of the RIBs keep sessions steady (src/bgp/as.c).
use cbgp.Base.{
  ℕ, ◌≡◌, refl, subst, Bool, true, false, Option, none, some, List, [], ◌∷◌, All, ltb, ◌==◌,
  if◌then◌else◌, ◌>>=◌, >>=-some, some_injective,
}
use cbgp.Route.{Route}
use cbgp.Filter.{Rules}
use cbgp.Speaker.{
  done, Error, success, unexpected, duplicate, invalid_address, unknown_peer, Session, Bgp, Env,
}
use cbgp.Speaker.Process.{decision_process, disseminate_to_peer}
use cbgp.Speaker.Fsm.{find_peer, change_peer, put, addresses, session_refresh}
use cbgp.Speaker.Handle.{current_route}
use cbgp.Speaker.Config.{
  peer_create, peers_add, add_peer, with_filter, set_filter, with_peer_next_hop, set_nexthop,
  without_ribs, clear_adj_rib, clear_rib,
}
use cbgp.Speaker.Scan.{refresh_sessions, known_prefix, scan_rib, readv_prefix}
use cbgp.Speaker.Every.{All-map, find_peer-All, change_peer-All_same}
use cbgp.Speaker.Lasting.{decision_process-lasts, disseminate_to_peer-lasts}
use cbgp.Speaker.Steady.{Steady, Steady-IsLasting, outcome, positive, change_peer-Steady}
use cbgp.Speaker.Shutdown.{session_refresh-Steady}

kept : (b c : Bgp) (x y : Error) → All Steady b.peers → done x b ≡ done y c → All Steady c.peers
kept b c x y h e = subst (λ (d : Bgp). All Steady d.peers) (outcome b c x y e) h

peers_add-All :
    (P : Session → Type 0) (p : Session) (ss ts : List Session)
    → P p
    → All P ss
    → peers_add p ss ≡ some ts
    → All P ts
peers_add-All P p [] ts k h e = subst (All P) (some_injective (p ∷ []) ts e) (k, tt)
peers_add-All P p (s ∷ ss) ts k h e =
    go (s.view.addr == p.view.addr) (ltb p.view.addr s.view.addr)
      (λ us. peers_add-All P p ss us k h.1) e
  where
    go :
        (u v : Bool)
        → ((us : List Session) → peers_add p ss ≡ some us → All P us)
        → (if u
            then none
            else if v
            then some (p ∷ s ∷ ss)
            else (peers_add p ss >>= λ us. some (s ∷ us)))
          ≡ some ts
        → All P ts
    go true v r e = absurd (cc)
    go false true r e = subst (All P) (some_injective (p ∷ s ∷ ss) ts e) (k, h)
    go false false r e =
        let (us, q, f) = >>=-some (peers_add p ss) _ ts e in
        subst (All P) (some_injective (s ∷ us) ts f) (h.0, r us q)

pub add_peer-Steady :
    (env : Env) (asn addr : ℕ) (b c : Bgp) (x : Error)
    → All Steady b.peers
    → add_peer env asn addr b ≡ done x c
    → All Steady c.peers
unfolding add_peer
add_peer-Steady env asn addr b c x h e =
    go (env.has_address addr) (peers_add (peer_create asn addr) b.peers)
      (λ ss q.
        peers_add-All Steady (peer_create asn addr) b.peers ss (refl, positive, positive) h q)
      e
  where
    go :
        (u : Bool) (o : Option (List Session))
        → ((ss : List Session) → o ≡ some ss → All Steady ss)
        → (if u then done invalid_address b else elim o [
          | none ↦ done duplicate b
          | some ss ↦ done success (record b { peers = ss })
        ])
          ≡ done x c
        → All Steady c.peers
    go true o r e = kept b c invalid_address x h e
    go false none r e = kept b c duplicate x h e
    go false (some ss) r e = kept (record b { peers = ss }) c success x (r ss refl) e

pub set_filter-Steady :
    (addr : ℕ) (input : Bool) (f : Option Rules) (b c : Bgp) (x : Error)
    → All Steady b.peers
    → set_filter addr input f b ≡ done x c
    → All Steady c.peers
unfolding set_filter
set_filter-Steady addr input f b c x h e = go (find_peer addr b.peers) e
  where
    filtered : (i : Bool) (s : Session) → Steady s → Steady (with_filter i f s)
    filtered true s k = k
    filtered false s k = k

    go :
        (o : Option Session)
        → (elim o [
          | none ↦ done unknown_peer b
          | some _ ↦ done success (change_peer (with_filter input f) addr b)
        ])
          ≡ done x c
        → All Steady c.peers
    go none e = kept b c unknown_peer x h e
    go (some s) e =
        kept (change_peer (with_filter input f) addr b) c success x
          (change_peer-All_same Steady (with_filter input f) addr b.peers (filtered input) h) e

pub set_nexthop-Steady :
    (env : Env) (addr a : ℕ) (b c : Bgp) (x : Error)
    → All Steady b.peers
    → set_nexthop env addr a b ≡ done x c
    → All Steady c.peers
unfolding set_nexthop
set_nexthop-Steady env addr a b c x h e =
    let (s, p, f) = >>=-some (find_peer addr b.peers) _ (c, x) e in go (env.has_address a) f
  where
    go :
        (u : Bool)
        → (if u
            then done success (change_peer (with_peer_next_hop a) addr b)
            else done unexpected b)
          ≡ done x c
        → All Steady c.peers
    go true f =
        kept (change_peer (with_peer_next_hop a) addr b) c success x
          (change_peer-All_same Steady (with_peer_next_hop a) addr b.peers (λ s k. k) h) f
    go false f = kept b c unexpected x h f

pub clear_rib-Steady :
    (b : Bgp)
    → All Steady b.peers
    → All Steady (clear_rib b).peers × All Steady (clear_adj_rib b).peers
unfolding clear_rib clear_adj_rib
clear_rib-Steady b h = (
  All-map Steady without_ribs b.peers (λ s k. k) h,
  All-map Steady without_ribs b.peers (λ s k. k) h,
)

refresh_sessions-Steady :
    (env : Env) (as' : List ℕ) (b c : Bgp)
    → All Steady b.peers
    → refresh_sessions env as' b ≡ some c
    → All Steady c.peers
unfolding refresh_sessions
refresh_sessions-Steady env [] b c h e =
    subst (λ (d : Bgp). All Steady d.peers) (some_injective b c e) h
refresh_sessions-Steady env (a ∷ as') b c h e =
    let (d, p, f) = >>=-some (session_refresh env a b) _ c e in
    refresh_sessions-Steady env as' d c (session_refresh-Steady env a b d h p) f

pub scan_rib-Steady :
    (env : Env) (b c : Bgp) → All Steady b.peers → scan_rib env b ≡ some c → All Steady c.peers
unfolding scan_rib
scan_rib-Steady env b c h e =
    let (d, p, f) = >>=-some (refresh_sessions env (addresses b) b) _ c e in
    go d (known_prefix d.peers d.loc_rib) (refresh_sessions-Steady env (addresses b) b d h p) f
  where
    go :
        (d : Bgp) (u : Bool)
        → All Steady d.peers
        → (if u then decision_process env d else some d) ≡ some c
        → All Steady c.peers
    go d true k f = decision_process-lasts env Steady (Steady-IsLasting env) d c k f
    go d false k f = subst (λ (x : Bgp). All Steady x.peers) (some_injective d c f) k

pub readv_prefix-Steady :
    (env : Env) (addr : ℕ) (b c : Bgp)
    → All Steady b.peers
    → readv_prefix env addr b ≡ some c
    → All Steady c.peers
unfolding readv_prefix
readv_prefix-Steady env addr b c h e =
    let (s, p, f) = >>=-some (find_peer addr b.peers) _ c e in
    go s (find_peer-All Steady addr b.peers s h p) (current_route b) f
  where
    go :
        (s : Session)
        → Steady s
        → (o : Option Route)
        → (elim o [
          | none ↦ some b
          | some r ↦ disseminate_to_peer env (some r) s >>= λ t. some (put addr t b)
        ])
          ≡ some c
        → All Steady c.peers
    go s k none f = subst (λ (x : Bgp). All Steady x.peers) (some_injective b c f) h
    go s k (some r) f =
        let (t, q, g) = >>=-some (disseminate_to_peer env (some r) s) _ c f in
        let new : Steady t =
          disseminate_to_peer-lasts env Steady (Steady-IsLasting env) (some r) s t k q in
        change_peer-Steady (λ _. t) addr b c (λ _ _. new) h g
