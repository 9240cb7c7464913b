-- ===== src/Speaker/Routing.antt =====
-- The Loc-RIB and the routing table after the decision process (src/bgp/as.c, src/bgp/dp_rt.c).
use cbgp.Base.{
  arith, ℕ, ◌≡◌, refl, sym, ap, ◌∙◌, subst, Bool, true, false, Option, none, some, List, ◌>>=◌,
  >>=-some, Bool-cases, ◌⊎◌, inl, inr,
}
use cbgp.Route.{Route}
use cbgp.Route.Compare.{route_equals, attr_cmp_sound, route_equals-attr_cmp}
use cbgp.Speaker.{Session, Bgp, Env, with_best}
use cbgp.Speaker.Process.{
  disseminate, get_feasible_routes, best_route, update_best_route, unchanged_best_route,
  no_best_route, rt_del_route, with_best_route, installed, is_local, decision_process,
  sessions_after, best_flag_off, best_flag_on, old_flag_off, with_dp_igp,
}

-- The routing table has a BGP route exactly with the next-hop of the Loc-RIB route; what it has is
-- left open for a local route.
abbrev pub Agrees : Option Route → Option ℕ → Type 0
Agrees none fib = fib ≡ none
Agrees (some r) fib = (r.flags.internal ≡ true) ⊎ (fib ≡ some r.attr.next_hop)

abbrev pub IsInstalled : Bgp → Type 0
IsInstalled b = Agrees b.loc_rib b.fib

same : {b b' : Bgp} → some b ≡ some b' → b ≡ b'
same e = cc

route_equals-next_hop :
    (r s : Route) (t : Bool)
    → route_equals false false t r s ≡ some true
    → r.attr.next_hop ≡ s.attr.next_hop
route_equals-next_hop r s t e = (attr_cmp_sound t r.attr s.attr (route_equals-attr_cmp t r s e)).0

update_best_route-fields :
    (env : Env) (b b' : Bgp) (ss : List Session) (r : Route)
    → update_best_route env b ss r ≡ some b'
    → (b'.loc_rib ≡ some (with_best true r)) × (b'.fib ≡ some r.attr.next_hop)
unfolding update_best_route
update_best_route-fields env b b' ss r e =
    let (ss', p, q) =
      >>=-some
        (disseminate env (some (with_best true r)) (best_flag_on r (old_flag_off b.loc_rib ss))) _
        b' e in
    let s = same q in (sym (ap (λ (c : Bgp). c.loc_rib) s), sym (ap (λ (c : Bgp). c.fib) s))

deleted : (env : Env) (o p : Option ℕ) → rt_del_route env o ≡ some p → p ≡ none
deleted env none p e = ground (arith, e)
deleted env (some a) p e = cc

pub no_best_route-fields :
    (env : Env) (b b' : Bgp) (ss : List Session)
    → IsInstalled b
    → no_best_route env b ss ≡ some b'
    → (b'.loc_rib ≡ none) × (b'.fib ≡ none)
unfolding no_best_route
no_best_route-fields env b b' ss i e = go b.loc_rib refl i e
  where
    go :
        (o : Option Route)
        → b.loc_rib ≡ o
        → Agrees o b.fib
        → (elim o [
          | none ↦ some (record b { peers = ss })
          | some r ↦ rt_del_route env b.fib >>= λ fib.
              disseminate env none (best_flag_off r ss) >>= λ ss'.
              some (record b { peers = ss'; loc_rib = none; fib = fib })
        ])
          ≡ some b'
        → (b'.loc_rib ≡ none) × (b'.fib ≡ none)
    go none p a e =
        let s = same e in
        (sym (ap (λ (c : Bgp). c.loc_rib) s) ∙ p, sym (ap (λ (c : Bgp). c.fib) s) ∙ a)
    go (some r) p a e =
        let (fib, d, f) = >>=-some (rt_del_route env b.fib) _ b' e in
        let (_, _, g) = >>=-some (disseminate env none (best_flag_off r ss)) _ b' f in
        let s = same g in
        (
          sym (ap (λ (c : Bgp). c.loc_rib) s),
          sym (ap (λ (c : Bgp). c.fib) s) ∙ deleted env b.fib fib d,
        )

-- What a chosen route leaves in the Loc-RIB: the route itself, or the old one that route_equals calls
-- equal, with the DP_IGP flag of the chosen one.
abbrev pub Holds : Env → Route → Option Route → Option Route → Type 0
Holds env r old loc =
    (loc ≡ some (with_best true r))
    ⊎ ((o : Route) × (old ≡ some o)
        × (route_equals false false (env.ecomms_equal o.attr.ecomms r.attr.ecomms) o r ≡ some true)
        × (loc ≡ some (with_dp_igp r.flags.dp_igp o)))

pub with_best_route-fields :
    (env : Env) (b b' : Bgp) (ss : List Session) (r : Route)
    → with_best_route env b ss r ≡ some b'
    → Holds env r b.loc_rib b'.loc_rib × (b'.fib ≡ some r.attr.next_hop)
unfolding with_best_route
with_best_route-fields env b b' ss r e = go b.loc_rib refl e
  where
    done :
        update_best_route env b ss r ≡ some b'
        → Holds env r b.loc_rib b'.loc_rib × (b'.fib ≡ some r.attr.next_hop)
    done e = let (l, f) = update_best_route-fields env b b' ss r e in (inl l, f)

    compared :
        (o : Route) (t : Bool)
        → b.loc_rib ≡ some o
        → route_equals false false (env.ecomms_equal o.attr.ecomms r.attr.ecomms) o r ≡ some t
        → (elim t [
          | true ↦ some (unchanged_best_route b ss o r)
          | false ↦ update_best_route env b ss r
        ])
          ≡ some b'
        → Holds env r b.loc_rib b'.loc_rib × (b'.fib ≡ some r.attr.next_hop)
    compared o true p q e =
        let s = same e in
        (inr (o, p, q, sym (ap (λ (c : Bgp). c.loc_rib) s)), sym (ap (λ (c : Bgp). c.fib) s))
    compared o false p q e = done e

    go :
        (o : Option Route)
        → b.loc_rib ≡ o
        → (elim o [
          | none ↦ update_best_route env b ss r
          | some o ↦
              route_equals false false (env.ecomms_equal o.attr.ecomms r.attr.ecomms) o r >>= λ t.
              elim t [
                | true ↦ some (unchanged_best_route b ss o r)
                | false ↦ update_best_route env b ss r
              ]
        ])
          ≡ some b'
        → Holds env r b.loc_rib b'.loc_rib × (b'.fib ≡ some r.attr.next_hop)
    go none p e = done e
    go (some o) p e =
        let (t, q, f) =
          >>=-some (route_equals false false (env.ecomms_equal o.attr.ecomms r.attr.ecomms) o r) _
            b' e in
        compared o t p q f

pub Holds-next_hop :
    (env : Env) (r : Route) (old loc : Option Route) (fib : Option ℕ)
    → Holds env r old loc
    → fib ≡ some r.attr.next_hop
    → Agrees loc fib
Holds-next_hop env r old loc fib (inl e) f = rw e (inr f)
Holds-next_hop env r old loc fib (inr (o, p, q, e)) f =
    rw e (inr (f ∙ ap some (sym (route_equals-next_hop o r _ q))))

-- The decision process keeps the routing table in step with the Loc-RIB: if there was a BGP route in
-- the table exactly for a Loc-RIB route and with its next-hop (but for a local route), this is so
-- afterwards.
pub decision_process-IsInstalled :
    (env : Env) (b b' : Bgp) → IsInstalled b → decision_process env b ≡ some b' → IsInstalled b'
unfolding decision_process installed
decision_process-IsInstalled env b b' i e = elim (Bool-cases (is_local b.loc_rib)) [
  | inl l ↦ subst IsInstalled (same (rw l at e)) i
  | inr l ↦
      let (best, _, q) =
        >>=-some (best_route env (get_feasible_routes env b.fib b.peers)) _ b' (rw l at e) in
      go best q
]
  where
    go :
        (best : Option Route)
        → installed env b (sessions_after env b.fib b.peers) best ≡ some b'
        → IsInstalled b'
    go none q =
        let (l, f) = no_best_route-fields env b b' (sessions_after env b.fib b.peers) i q in rw l f
    go (some r) q =
        let (l, f) = with_best_route-fields env b b' (sessions_after env b.fib b.peers) r q in
        Holds-next_hop env r b.loc_rib b'.loc_rib b'.fib l f
