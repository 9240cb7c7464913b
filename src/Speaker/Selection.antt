-- ===== src/Speaker/Selection.antt =====
-- The decision process for a prefix as a whole (src/bgp/as.c): it goes through, and what is then in
-- the Loc-RIB.
use cbgp.Base.{
  ℕ, ◌≡◌, ◌≢◌, refl, ap, ◌∙◌, Bool, true, false, Option, none, some, List, [], ◌∷◌, map, All, In,
  inl, inr, ◌>>=◌, bind_some, aborted,
}
use cbgp.Route.{Route}
use cbgp.Route.Compare.{route_equals}
use cbgp.Decision.{always_compare, marked}
use cbgp.Decision.Keys.{key_address, Comparable, LexLe, rule_keys}
use cbgp.Decision.Table.{clean}
use cbgp.Decision.Run.{decision_process_run_best}
use cbgp.Decision.Choice.{Distinct}
use cbgp.Speaker.{Session, Bgp, Env, with_best}
use cbgp.Speaker.Process.{
  disseminate, get_feasible_routes, best_route, update_best_route, unchanged_best_route,
  no_best_route, rt_del_route, with_best_route, installed, is_local, decision_process,
  sessions_after, best_flag_off, best_flag_on, old_flag_off, advertisement,
}
use cbgp.Speaker.Routing.{
  IsInstalled, Agrees, Holds, no_best_route-fields, with_best_route-fields, Holds-next_hop,
}
use cbgp.Speaker.Peers.{
  Announces, DistinctPeers, changed-Announces, disseminate-some, withdraw-some,
  get_feasible_routes-Distinct,
}

In-All : (P : Route → Type 0) (rs : List Route) → ((r : Route) → In r rs → P r) → All P rs
In-All P [] h = tt
In-All P (r ∷ rs) h = (h r (inl refl), In-All P rs (λ s i. h s (inr i)))

LexLe-refl : (keys : List (Route → ℕ)) (r : Route) → LexLe keys r r
LexLe-refl [] r = tt
LexLe-refl (k ∷ keys) r = inr (refl, LexLe-refl keys r)

-- The best of some candidates, but for the DP_IGP flag: one of them, and lexicographically the best.
abbrev pub IsBest : Env → Route → List Route → Type 0
IsBest env best rs =
    In (clean best) (map clean rs) × All (λ s. LexLe (rule_keys env.router) best s) rs

best_route-IsBest :
    (env : Env) (x : Route) (xs : List Route)
    → env.med ≡ always_compare
    → Comparable always_compare env.router (x ∷ xs)
    → Distinct key_address (x ∷ xs)
    → (best : Route) × (best_route env (x ∷ xs) ≡ some (some best)) × IsBest env best (x ∷ xs)
unfolding best_route
best_route-IsBest env x [] m c d =
    (marked x, refl, (inl refl, (LexLe-refl (rule_keys env.router) x, tt)))
best_route-IsBest env x (y ∷ ys) m c d =
    let (best, rank, e, i, l) = decision_process_run_best env.router x (y ∷ ys) c d in
    (best, rw m (rw e refl), (i, In-All _ (x ∷ y ∷ ys) l))

update_best_route-some :
    (env : Env) (b : Bgp) (r : Route)
    → All (Announces env (with_best true r)) b.peers
    → (b' : Bgp) × (update_best_route env b (sessions_after env b.fib b.peers) r ≡ some b')
unfolding update_best_route
update_best_route-some env b r a =
    let (ss, e) =
      disseminate-some env (some (with_best true r))
        (best_flag_on r (old_flag_off b.loc_rib (sessions_after env b.fib b.peers)))
        (changed-Announces env b.fib (with_best true r) r b.loc_rib b.peers a) in
    (
      record b { peers = ss; loc_rib = some (with_best true r); fib = some r.attr.next_hop },
      bind_some _ ss _ e,
    )

with_best_route-some :
    (env : Env) (b : Bgp) (r : Route)
    → All (Announces env (with_best true r)) b.peers
    → ((o : Route)
        → b.loc_rib ≡ some o
        → route_equals false false (env.ecomms_equal o.attr.ecomms r.attr.ecomms) o r ≢ none)
    → (b' : Bgp) × (with_best_route env b (sessions_after env b.fib b.peers) r ≡ some b')
unfolding with_best_route
with_best_route-some env b r a h = go b.loc_rib h (update_best_route-some env b r a)
  where
    ss : List Session
    ss = sessions_after env b.fib b.peers

    compared :
        (o : Route) (t : Option Bool)
        → t ≢ none
        → (c : Bgp) × (update_best_route env b ss r ≡ some c)
        → (c : Bgp) × ((t >>= λ u. elim u [
          | true ↦ some (unchanged_best_route b ss o r)
          | false ↦ update_best_route env b ss r
        ])
            ≡ some c)
    compared o none n u = absurd (n refl)
    compared o (some true) n u = (_, refl)
    compared o (some false) n u = u

    go :
        (o : Option Route)
        → ((p : Route)
            → o ≡ some p
            → route_equals false false (env.ecomms_equal p.attr.ecomms r.attr.ecomms) p r ≢ none)
        → (c : Bgp) × (update_best_route env b ss r ≡ some c)
        → (c : Bgp) × ((elim o [
          | none ↦ update_best_route env b ss r
          | some p ↦
              route_equals false false (env.ecomms_equal p.attr.ecomms r.attr.ecomms) p r >>= λ u.
              elim u [
                | true ↦ some (unchanged_best_route b ss p r)
                | false ↦ update_best_route env b ss r
              ]
        ])
            ≡ some c)
    go none h u = u
    go (some p) h u =
        compared p (route_equals false false (env.ecomms_equal p.attr.ecomms r.attr.ecomms) p r)
          (h p refl) u

no_best_route-some :
    (env : Env) (b : Bgp) (ss : List Session)
    → is_local b.loc_rib ≡ false
    → IsInstalled b
    → (b' : Bgp) × (no_best_route env b ss ≡ some b')
unfolding no_best_route
no_best_route-some env b ss l i = go b.loc_rib l i
  where
    go :
        (o : Option Route)
        → is_local o ≡ false
        → Agrees o b.fib
        → (c : Bgp) × ((elim o [
          | none ↦ some (record b { peers = ss })
          | some r ↦ rt_del_route env b.fib >>= λ fib.
              disseminate env none (best_flag_off r ss) >>= λ ss'.
              some (record b { peers = ss'; loc_rib = none; fib = fib })
        ])
            ≡ some c)
    go none l i = (_, refl)
    go (some r) l (inl e) = absurd (cc)
    go (some r) l (inr f) =
        let (ss', e) = withdraw-some env (best_flag_off r ss) in
        (
          record b { peers = ss'; loc_rib = none; fib = none },
          bind_some (rt_del_route env b.fib) none _ (ap (rt_del_route env) f) ∙ bind_some _ ss' _ e,
        )

-- What is chosen among the candidates, and what is then in the Loc-RIB.
abbrev pub Selected : Env → List Route → Option Route → Option Route → Type 0
Selected env [] old loc = loc ≡ none
Selected env (x ∷ xs) old loc = (best : Route) × IsBest env best (x ∷ xs) × Holds env best old loc

-- With the always-compare MED rule, for a prefix without a local route, where the routing table
-- agrees with the Loc-RIB, the peers have different addresses, the feasible routes can be compared,
-- the comparison of the best route with the old one returns, and no advertisement of the best route
-- aborts: the decision process goes through. If no eligible route of an established session has a
-- reachable next-hop, the Loc-RIB and the routing table are then empty. Otherwise one of these
-- routes, lexicographically the best of them, is in the Loc-RIB (or the old route, if route_equals
-- calls it equal), and its next-hop is in the routing table.
pub decision_process_best :
    (env : Env) (b : Bgp)
    → env.med ≡ always_compare
    → is_local b.loc_rib ≡ false
    → IsInstalled b
    → DistinctPeers b.peers
    → Comparable always_compare env.router (get_feasible_routes env b.fib b.peers)
    → ((r : Route)
        → best_route env (get_feasible_routes env b.fib b.peers) ≡ some (some r)
        → All (λ s. advertisement env (with_best true r) s ≢ aborted) b.peers)
    → ((o r : Route)
        → b.loc_rib ≡ some o
        → best_route env (get_feasible_routes env b.fib b.peers) ≡ some (some r)
        → route_equals false false (env.ecomms_equal o.attr.ecomms r.attr.ecomms) o r ≢ none)
    → (b' : Bgp) × (decision_process env b ≡ some b')
      × Selected env (get_feasible_routes env b.fib b.peers) b.loc_rib b'.loc_rib
      × Agrees b'.loc_rib b'.fib
unfolding decision_process installed best_route
decision_process_best env b m l i d c a q =
    go (get_feasible_routes env b.fib b.peers) refl c
      (get_feasible_routes-Distinct env b.fib b.peers d) a q
  where
    go :
        (rs : List Route)
        → get_feasible_routes env b.fib b.peers ≡ rs
        → Comparable always_compare env.router rs
        → Distinct key_address rs
        → ((r : Route)
            → best_route env rs ≡ some (some r)
            → All (Announces env (with_best true r)) b.peers)
        → ((o r : Route)
            → b.loc_rib ≡ some o
            → best_route env rs ≡ some (some r)
            → route_equals false false (env.ecomms_equal o.attr.ecomms r.attr.ecomms) o r ≢ none)
        → (b' : Bgp) × (decision_process env b ≡ some b')
          × Selected env rs b.loc_rib b'.loc_rib
          × Agrees b'.loc_rib b'.fib
    go [] p c d a q =
        let (b', e) = no_best_route-some env b (sessions_after env b.fib b.peers) l i in
        let (loc, fib) = no_best_route-fields env b b' (sessions_after env b.fib b.peers) i e in
        (b', rw l (bind_some _ none _ (ap (best_route env) p) ∙ e), loc, rw loc fib)
    go (x ∷ xs) p c d a q =
        let (best, f, w) = best_route-IsBest env x xs m c d in
        let (b', e) = with_best_route-some env b best (a best f) (λ o h. q o best h f) in
        let (loc, fib) =
          with_best_route-fields env b b' (sessions_after env b.fib b.peers) best e in
        (
          b',
          rw l (bind_some _ (some best) _ (ap (best_route env) p ∙ f) ∙ e),
          (best, w, loc),
          Holds-next_hop env best b.loc_rib b'.loc_rib b'.fib loc fib,
        )
