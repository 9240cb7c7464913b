-- ===== src/Decision/Med.antt =====
-- The deterministic MED rule (dp_rule_lowest_med in src/bgp/dp_rules.c).
pub mod Scan
pub mod Deterministic
use cbgp.Base.{
  ℕ, zero, suc, ◌+◌, ◌≤◌, ◌<◌, ◌≡◌, ◌↔◌, refl, sym, ap, ◌∙◌, Bool, true, false, not, ◌&&◌, ◌||◌,
  Option, none, some, List, [], ◌∷◌, map, arith, length, leb, ltb, keep, any, In, any-In, any_intro,
  keep_cong, if◌then◌else◌, inl, inr, ◌⊎◌, Bool_of_iff, Bool-cases, ◌>>=◌, subst,
}
use cbgp.Base.Int.{ℤ, eqb_ℤ, eqb_ℤ_iff}
use cbgp.Route.{Route, route_path_last_as}
use cbgp.Decision.{Router, deterministic, entry, med_scan, med_loop, compact, dp_rule_lowest_med}

module _ (as_of : Route → ℤ) where
  -- The same neighbor AS and a lower MED.
  abbrev pub beats : Route → Route → Bool
  beats s t = eqb_ℤ (as_of s) (as_of t) && ltb s.attr.med t.attr.med

  pub beats_trans : (s t u : Route) → beats s t ≡ true → beats t u ≡ true → beats s u ≡ true
  beats_trans s t u h k = ground (
    arith,
    eqb_ℤ_iff (as_of s) (as_of t),
    eqb_ℤ_iff (as_of t) (as_of u),
    eqb_ℤ_iff (as_of s) (as_of u),
    h,
    k,
  )

  pub beats_irrefl : (s : Route) → beats s s ≡ false
  beats_irrefl s = ground arith

  abbrev pub beaten : Route → List (Option Route) → Bool
  beaten t [] = false
  beaten t (none ∷ es) = beaten t es
  beaten t (some s ∷ es) = beats s t || beaten t es

  -- The entries that nothing in `all` beats.
  abbrev pub prune : List (Option Route) → List (Option Route) → List (Option Route)
  prune all [] = []
  prune all (none ∷ es) = none ∷ prune all es
  prune all (some t ∷ es) = (if beaten t all then none else some t) ∷ prune all es

  pub beaten-In :
      (t : Route) (es : List (Option Route))
      → beaten t es ≡ true
      → (s : Route) × In (some s) es × (beats s t ≡ true)
  beaten-In t [] h = cc
  beaten-In t (none ∷ es) h = let (s, i, b) = beaten-In t es h in (s, inr i, b)
  beaten-In t (some s ∷ es) h = elim (Bool-cases (beats s t)) [
    | inl e ↦ (s, inl refl, e)
    | inr e ↦ let (u, i, b) = beaten-In t es (rw e at h) in (u, inr i, b)
  ]

  pub beaten_intro :
      (s t : Route) (es : List (Option Route))
      → In (some s) es
      → beats s t ≡ true
      → beaten t es ≡ true
  beaten_intro s t [] i h = absurd i
  beaten_intro s t (none ∷ es) (inl e) h = cc
  beaten_intro s t (none ∷ es) (inr i) h = beaten_intro s t es i h
  beaten_intro s t (some u ∷ es) (inl e) h = ground (arith, e, h)
  beaten_intro s t (some u ∷ es) (inr i) h = ground (arith, beaten_intro s t es i h)

  -- What the inner loop for r may do to the entries behind r.
  pub data Scanned (r : Route) : List (Option Route) → List (Option Route) → Type 0 where
    done : Scanned r [] []
    same :
        (e : Option Route) {es es' : List (Option Route)}
        → Scanned r es es'
        → Scanned r (e ∷ es) (e ∷ es')
    nulls :
        (t : Route) {es es' : List (Option Route)}
        → beats r t ≡ true
        → Scanned r es es'
        → Scanned r (some t ∷ es) (none ∷ es')

  pub Scanned-refl : (r : Route) (es : List (Option Route)) → Scanned r es es
  Scanned-refl r [] = done
  Scanned-refl r (e ∷ es) = same e (Scanned-refl r es)

  pub Scanned-In :
      (r s : Route) {es es' : List (Option Route)}
      → Scanned r es es'
      → In (some s) es'
      → In (some s) es
  Scanned-In r s done i = i
  Scanned-In r s (same e h) (inl q) = inl q
  Scanned-In r s (same e h) (inr i) = inr (Scanned-In r s h i)
  Scanned-In r s (nulls t b h) (inl q) = cc
  Scanned-In r s (nulls t b h) (inr i) = inr (Scanned-In r s h i)

  pub Scanned-lost :
      (r s : Route) {es es' : List (Option Route)}
      → Scanned r es es'
      → In (some s) es
      → In (some s) es' ⊎ (beats r s ≡ true)
  Scanned-lost r s done i = inl i
  Scanned-lost r s (same e h) (inl q) = inl (inl q)
  Scanned-lost r s (same e h) (inr i) = elim (Scanned-lost r s h i) [
    | inl j ↦ inl (inr j)
    | inr b ↦ inr b
  ]
  Scanned-lost r s (nulls t b h) (inl q) = inr (ground (arith, q, b))
  Scanned-lost r s (nulls t b h) (inr i) = elim (Scanned-lost r s h i) [
    | inl j ↦ inl (inr j)
    | inr c ↦ inr c
  ]

  pub length-Scanned :
      (r : Route) {es es' : List (Option Route)} → Scanned r es es' → length es' ≡ length es
  length-Scanned r done = refl
  length-Scanned r (same e h) = ap suc (length-Scanned r h)
  length-Scanned r (nulls t b h) = ap suc (length-Scanned r h)

  -- The verdict on r: it is kept exactly if nothing behind it beats it, and then all that it beats
  -- is gone; if it is not kept, what beats it stays.
  pub data Verdict (r : Route) (es es' : List (Option Route)) : Bool → Type 0 where
    stays :
        beaten r es ≡ false
        → ((t : Route) → In (some t) es' → beats r t ≡ false)
        → Verdict r es es' true
    goes : (s : Route) → In (some s) es' → beats s r ≡ true → Verdict r es es' false

  pub prune_cong :
      (r : Route) (all all' : List (Option Route)) {es es' : List (Option Route)}
      → Scanned r es es'
      → ((t : Route) → In (some t) es' → beaten t all' ≡ beaten t all)
      → ((t : Route) → beats r t ≡ true → beaten t all ≡ true)
      → prune all' es' ≡ prune all es
  prune_cong r all all' done h k = refl
  prune_cong r all all' (same none s) h k =
      ap (◌∷◌ none) (prune_cong r all all' s (λ t i. h t (inr i)) k)
  prune_cong r all all' (same (some t) s) h k =
      rw (h t (inl refl), prune_cong r all all' s (λ t i. h t (inr i)) k)
  prune_cong r all all' (nulls t b s) h k =
      rw (k t b, prune_cong r all all' s (λ t i. h t (inr i)) k)
