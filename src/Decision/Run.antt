-- ===== src/Decision/Run.antt =====
-- The decision process as a whole: _bgp_router_decision_process_run (src/bgp/as.c) over DP_RULES.
use cbgp.Base.{
  ℕ, suc, ◌+◌, ◌≡◌, refl, sym, ap, ◌∙◌, subst, false, some, List, [], ◌∷◌, map, arith, length, leb,
  All, In, In-map, inl, keep-In,
}
use cbgp.Route.{Route}
use cbgp.Decision.{Router, MedType, always_compare, dp_rules, run_rules, decision_process_run}
use cbgp.Decision.Select.{minimal}
use cbgp.Decision.Keys.{key_address, Comparable, LexLe, rule_keys}
use cbgp.Decision.Choice.{
  Choice, select, refine, Leaves, refine-In, refine-cons, refine-single, refine-LexLe, Distinct,
  refine-Distinct, map-Distinct, minimal-Distinct,
}
use cbgp.Decision.Table.{
  clean, Rule, Chosen, Table, end, row, first_choices, choices, first_choices-Leaves,
  choices-Leaves, dp_rules-Table,
}

-- What the loop over the rules leaves, and the number of rules that were applied.
record Left (med : MedType) (router : Router) (rules : List Rule) (ps : List Choice)
    (rs : List Route) (index : ℕ) : Type 0 where
  out : List Route
  rank : ℕ
  runs : run_rules rules router rs index ≡ some (out, rank)
  chosen : map clean out ≡ refine ps (map clean rs)

-- At least one route is left by a choice that leaves some.
not_empty :
    (p : Choice) (x : Route) (xs out : List Route)
    → Leaves p
    → map clean out ≡ select p (map clean (x ∷ xs))
    → (y : Route) × (ys : List Route) × (out ≡ y ∷ ys)
not_empty p x xs (y ∷ ys) l e = (y, ys, refl)
not_empty p x xs [] l e =
    let (a, i, t) = l (clean x) (map clean xs) in
    absurd (subst (In a) (sym e) (keep-In (p (map clean (x ∷ xs))) a (map clean (x ∷ xs)) i t))

several : (n : ℕ) → leb (suc (suc n)) 1 ≡ false
several n = ground arith

-- The loop stops early on a single route; the rules that it then skips would leave that route.
run_rules_lem :
    {med : MedType} {router : Router} {rules : List Rule} {ps : List Choice}
    → Table med router rules ps
    → (x : Route) (xs : List Route) (index : ℕ) → All Leaves ps
    → Comparable med router (x ∷ xs)
    → Left med router rules ps (x ∷ xs) index
unfolding run_rules
run_rules_lem end x xs index l c = record { out = x ∷ xs; rank = index; runs = refl; chosen = refl }
run_rules_lem (row {p = p} {ps = ps} makes rest) x [] index l c = record {
  out = x ∷ [];
  rank = index;
  runs = refl;
  chosen = sym (refine-single (p ∷ ps) (clean x) l);
}
run_rules_lem {med} {router} (row {rule = rule} {p = p} {rules = rules} {ps = ps} makes rest) x
      (x' ∷ xs) index l c =
    go (makes x (x' ∷ xs) c) (λ y ys. run_rules_lem rest y ys (index + 1) l.1)
  where
    go :
        Chosen med router rule p (x ∷ x' ∷ xs)
        → ((y : Route) (ys : List Route)
            → Comparable med router (y ∷ ys)
            → Left med router rules ps (y ∷ ys) (index + 1))
        → Left med router (rule ∷ rules) (p ∷ ps) (x ∷ x' ∷ xs) index
    go s next =
        let (y, ys, e) = not_empty p x (x' ∷ xs) s.out l.0 s.chosen in
        let n : Left med router rules ps (y ∷ ys) (index + 1) =
          next y ys (subst (Comparable med router) e s.comparable) in
        record {
          out = n.out;
          rank = n.rank;
          runs = rw (several (length xs), run_rules) (rw s.runs (rw e n.runs));
          chosen =
              n.chosen
              ∙ ap (λ (t : List Route). refine ps (map clean t)) (sym e)
              ∙ ap (refine ps) s.chosen;
        }

-- The choices of all the rules leave exactly one of the routes, if these have neighbors of
-- different addresses.
one_left :
    (med : MedType) (router : Router) (x : Route) (xs out : List Route)
    → Distinct key_address (x ∷ xs)
    → map clean out ≡ refine (choices med router) (map clean (x ∷ xs))
    → (best : Route) × (out ≡ best ∷ [])
one_left med router x xs out d e =
    let (y, ys, q) =
      refine-cons (first_choices med router) (clean x) (map clean xs)
        (first_choices-Leaves med router) in
    let d' : Distinct key_address (y ∷ ys) = subst (Distinct key_address) q (
      refine-Distinct key_address (first_choices med router) (map clean (x ∷ xs))
        (map-Distinct key_address clean (x ∷ xs) (λ r. refl) d)) in
    let (a, m) = minimal-Distinct key_address y ys d' in
    single out (e ∙ ap (minimal key_address) q ∙ m)
  where
    single :
        {a : Route} (rs : List Route) → map clean rs ≡ a ∷ [] → (best : Route) × (rs ≡ best ∷ [])
    single [] p = cc
    single (r ∷ []) p = (r, refl)
    single (r ∷ s ∷ rs) p = cc

-- On at least one comparable route, learned from neighbors of pairwise different addresses, the
-- decision process ends with exactly one route, which is one of those given but for its DP_IGP
-- flag; it is the one that the choices of the rules, each made in full, leave.
pub decision_process_run_lem :
    (med : MedType) (router : Router) (x : Route) (xs : List Route)
    → Comparable med router (x ∷ xs)
    → Distinct key_address (x ∷ xs)
    → (best : Route) × (rank : ℕ) × (decision_process_run med router (x ∷ xs)
        ≡ some (best ∷ [], rank))
      × In (clean best) (map clean (x ∷ xs))
      × (refine (choices med router) (map clean (x ∷ xs)) ≡ clean best ∷ [])
unfolding decision_process_run
decision_process_run_lem med router x xs c d =
    let l : Left med router (dp_rules med) (choices med router) (x ∷ xs) 0 =
      run_rules_lem (dp_rules-Table med router) x xs 0 (choices-Leaves med router) c in
    let (best, e) = one_left med router x xs l.out d l.chosen in
    let q : refine (choices med router) (map clean (x ∷ xs)) ≡ clean best ∷ [] =
      sym l.chosen ∙ ap (map clean) e in
    (
      best,
      l.rank,
      rw l.runs (rw e refl),
      refine-In (choices med router) (clean best) (map clean (x ∷ xs)) (rw q (inl refl)),
      q,
    )

-- On at least one comparable route, learned from neighbors of pairwise different addresses, and with
-- the always-compare MED rule, the decision process ends with exactly one route, which is one of
-- those given but for its DP_IGP flag, and which is lexicographically the best of them: highest
-- LOCAL-PREF, then shortest AS-Path, lowest ORIGIN, lowest MED, eBGP before iBGP, nearest next-hop,
-- lowest router-ID (or Originator-ID), shortest Cluster-ID-List, lowest address.
pub decision_process_run_best :
    (router : Router) (x : Route) (xs : List Route)
    → Comparable always_compare router (x ∷ xs)
    → Distinct key_address (x ∷ xs)
    → (best : Route) × (rank : ℕ) × (decision_process_run always_compare router (x ∷ xs)
        ≡ some (best ∷ [], rank))
      × In (clean best) (map clean (x ∷ xs))
      × ((s : Route) → In s (x ∷ xs) → LexLe (rule_keys router) best s)
decision_process_run_best router x xs c d =
    let (best, rank, e, i, q) = decision_process_run_lem always_compare router x xs c d in
    (
      best,
      rank,
      e,
      i,
      λ s j.
          refine-LexLe (rule_keys router) (clean best) (clean s) (map clean (x ∷ xs))
            (rw q (inl refl)) (In-map clean s (x ∷ xs) j),
    )
