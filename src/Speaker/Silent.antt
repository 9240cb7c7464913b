-- ===== src/Speaker/Silent.antt =====
-- The decision process on a best route that route_equals calls equal to the old one (src/bgp/as.c).
use cbgp.Base.{
  ℕ, ◌≡◌, refl, sym, ap, ◌∙◌, subst, true, false, Option, none, some, List, [], ◌∷◌, map, ◌>>=◌,
  bind_some,
}
use cbgp.Route.{Peer, Route}
use cbgp.Route.Compare.{route_equals}
use cbgp.Speaker.{Message, Session, Bgp, Env, with_best}
use cbgp.Speaker.Process.{
  change_in, change_adj_in, candidate, sessions_after, get_feasible_routes, best_route,
  update_best_route, unchanged_best_route, with_best_route, with_dp_igp, installed, is_local,
  decision_process,
}
use cbgp.Speaker.Every.{candidate-adj, change_in-adj}

-- What a session sent, and its Adj-RIB-Out.
abbrev pub outgoing : Session → List Message × Option Route
outgoing s = (s.sent, s.adj_out)

abbrev Kept : Session → Session → Type 0
Kept s t = outgoing t ≡ outgoing s

map-Kept :
    (f : Session → Session) (ss : List Session)
    → ((s : Session) → Kept s (f s))
    → map outgoing (map f ss) ≡ map outgoing ss
map-Kept f [] h = refl
map-Kept f (s ∷ ss) h = λ i. h s i ∷ map-Kept f ss h i

sessions_after-outgoing :
    (env : Env) (fib : Option ℕ) (ss : List Session)
    → map outgoing (sessions_after env fib ss) ≡ map outgoing ss
sessions_after-outgoing env fib ss =
    map-Kept (λ s. (candidate env fib s).0) ss
      (λ s. candidate-adj env (Kept s) (λ t o h. h) fib s refl)

best_flag_on-outgoing :
    (env : Env) (r : Route) (p : Option Peer) (ss : List Session)
    → map outgoing (change_adj_in (λ _. with_best true r) p ss) ≡ map outgoing ss
best_flag_on-outgoing env r none ss = refl
best_flag_on-outgoing env r (some p) ss =
    map-Kept (change_in (λ _. with_best true r) p.addr) ss
      (λ s. change_in-adj env (Kept s) (λ t o h. h) (λ _. with_best true r) p.addr s refl)

with_best_route-equal :
    (env : Env) (b : Bgp) (ss : List Session) (o r : Route)
    → b.loc_rib ≡ some o
    → route_equals false false (env.ecomms_equal o.attr.ecomms r.attr.ecomms) o r ≡ some true
    → with_best_route env b ss r ≡ some (unchanged_best_route b ss o r)
unfolding with_best_route
with_best_route-equal env b ss o r p q =
    subst
      (λ x.
        (elim x [
          | none ↦ update_best_route env b ss r
          | some o ↦
              route_equals false false (env.ecomms_equal o.attr.ecomms r.attr.ecomms) o r >>= λ t.
              elim t [
                | true ↦ some (unchanged_best_route b ss o r)
                | false ↦ update_best_route env b ss r
              ]
        ])
        ≡ some (unchanged_best_route b ss o r))
      (sym p) (bind_some _ true _ q)

-- Where route_equals calls the best route and the old one, not a local route, equal, the decision
-- process goes through, no message is sent and no Adj-RIB-Out changes, and the next-hop of the best
-- route is in the routing table. The Loc-RIB keeps the old route, and with it the peer that had
-- announced this one, whichever peer the best route is from.
pub equal_best_route :
    (env : Env) (b : Bgp) (o r : Route)
    → o.flags.internal ≡ false
    → b.loc_rib ≡ some o
    → best_route env (get_feasible_routes env b.fib b.peers) ≡ some (some r)
    → route_equals false false (env.ecomms_equal o.attr.ecomms r.attr.ecomms) o r ≡ some true
    → (b' : Bgp) × (decision_process env b ≡ some b')
      × (map outgoing b'.peers ≡ map outgoing b.peers)
      × (b'.fib ≡ some r.attr.next_hop)
      × (b'.loc_rib ≡ some (with_dp_igp r.flags.dp_igp o))
unfolding decision_process installed
equal_best_route env b o r l p e q = (
  unchanged_best_route b (sessions_after env b.fib b.peers) o r,
  rw (ap is_local p ∙ l) (
      bind_some _ (some r) _ e
      ∙ with_best_route-equal env b (sessions_after env b.fib b.peers) o r p q),
  best_flag_on-outgoing env r r.peer (sessions_after env b.fib b.peers)
      ∙ sessions_after-outgoing env b.fib b.peers,
  refl,
  refl,
)
