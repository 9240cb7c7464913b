-- ===== src/Decision/Med/Deterministic.antt =====
-- The deterministic MED rule as a whole (dp_rule_lowest_med in src/bgp/dp_rules.c).
use mathlib.Core.Path.{ap₂}
use cbgp.Base.{
  ℕ, zero, suc, ◌≤◌, ◌≡◌, ◌↔◌, refl, sym, ap, Bool, true, false, not, Option, none, some, List, [],
  ◌∷◌, map, arith, length, keep, any, In, if◌then◌else◌, inl, inr, Bool_of_iff, Bool-cases, subst,
  map-In, In-keep, keep-In, any_intro, any-In,
}
use cbgp.Base.Int.{ℤ, eqb_ℤ_iff}
use cbgp.Route.{Route, route_path_last_as}
use cbgp.Decision.{Router, deterministic, med_loop, compact, dp_rule_lowest_med}
use cbgp.Decision.Med.{
  beats, beats_trans, beats_irrefl, beaten, beaten-In, beaten_intro, prune, prune_cong, Scanned,
  Scanned-In, Scanned-lost, length-Scanned, Verdict, stays, goes,
}
use cbgp.Decision.Med.Scan.{Known, Scan, med_scan_lem}

module _ (as_of : Route → ℤ) where
  abbrev after : Route → List (Option Route) → List (Option Route)
  after r es = some r ∷ es

  -- What is live behind r after its loop is beaten there exactly if it was beaten before.
  beaten-after :
      (r : Route) (es es' : List (Option Route)) (k : Bool)
      → Scanned as_of r es es'
      → Verdict as_of r es es' k
      → (t : Route) → In (some t) es'
      → beaten as_of t es' ≡ beaten as_of t (after r es)
  beaten-after r es es' k s v t i = Bool_of_iff _ _ forth back
    where
      forth : beaten as_of t es' ≡ true → beaten as_of t (after r es) ≡ true
      forth h =
          let (u, j, b) = beaten-In as_of t es' h in
          beaten_intro as_of u t (after r es) (inr (Scanned-In as_of r u s j)) b

      by_r :
          {k' : Bool}
          → Verdict as_of r es es' k'
          → beats as_of r t ≡ true
          → beaten as_of t es' ≡ true
      by_r (stays e f) b = absurd (true≢false (f t i) b)
        where
          true≢false : {x : Bool} → x ≡ false → x ≡ true → ⊥
          true≢false p q = cc
      by_r (goes u j c) b = beaten_intro as_of u t es' j (beats_trans as_of u r t c b)

      back : beaten as_of t (after r es) ≡ true → beaten as_of t es' ≡ true
      back h = from (beaten-In as_of t (after r es) h)
        where
          from :
              (u : Route) × In (some u) (after r es) × (beats as_of u t ≡ true)
              → beaten as_of t es' ≡ true
          from (u, inl q, b) = by_r v (ground (arith, q, b))
          from (u, inr j, b) = elim (Scanned-lost as_of r u s j) [
            | inl l ↦ beaten_intro as_of u t es' l b
            | inr c ↦ by_r v (beats_trans as_of r u t c b)
          ]

  Verdict-beaten :
      (r : Route) (es es' : List (Option Route)) (k : Bool)
      → Scanned as_of r es es'
      → Verdict as_of r es es' k
      → (if k then some r else none) ≡ (if beaten as_of r (after r es) then none else some r)
  Verdict-beaten r es es' _ s (stays e f) = rw (beats_irrefl as_of r, e)
  Verdict-beaten r es es' _ s (goes u i b) =
      rw (beaten_intro as_of u r (after r es) (inr (Scanned-In as_of r u s i)) b)

  -- The outer loop removes exactly the live entries that some live entry beats.
  med_loop_lem :
      (rounds : ℕ) (es : List (Option Route))
      → length es ≤ rounds
      → Known as_of es
      → med_loop rounds es ≡ some (prune as_of es es)
  unfolding med_loop
  med_loop_lem zero [] h known = refl
  med_loop_lem zero (e ∷ es) h known = absurd (omega arith)
  med_loop_lem (suc rounds) [] h known = refl
  med_loop_lem (suc rounds) (none ∷ es) h known =
      rw (med_loop_lem rounds es (omega arith) (λ t i. known t (inr i)))
  med_loop_lem (suc rounds) (some r ∷ es) h known =
      let s : Scan as_of r es = med_scan_lem as_of r es (λ t i. known t (inr i)) in
      let rest : med_loop rounds s.out ≡ some (prune as_of s.out s.out) =
        med_loop_lem rounds s.out (omega (arith, length-Scanned as_of r s.scanned))
          (λ t i. known t (inr (Scanned-In as_of r t s.scanned i))) in
      rw (known r (inl refl)) (
        rw s.runs (
          rw rest (
            ap some (
              ap₂ ◌∷◌ (Verdict-beaten r es s.out s.kept s.scanned s.verdict) (
                prune_cong as_of r (after r es) s.out s.scanned
                  (beaten-after r es s.out s.kept s.scanned s.verdict)
                  (λ t b. beaten_intro as_of r t (after r es) (inl refl) b))))))

  -- No route of the list beats t.
  abbrev pub unbeaten : List Route → Route → Bool
  unbeaten rs t = not (any (λ s. beats as_of s t) rs)

  beaten-some :
      (t : Route) (rs : List Route) → beaten as_of t (map some rs) ≡ any (λ s. beats as_of s t) rs
  beaten-some t [] = refl
  beaten-some t (r ∷ rs) = rw (beaten-some t rs)

  compact-prune :
      (all rs : List Route)
      → compact (prune as_of (map some all) (map some rs)) ≡ keep (unbeaten all) rs
  compact-prune all [] = refl
  compact-prune all (r ∷ rs) =
      rw (beaten-some r all) (split (any (λ s. beats as_of s r) all) (compact-prune all rs))
    where
      split :
          (b : Bool)
          → compact (prune as_of (map some all) (map some rs)) ≡ keep (unbeaten all) rs
          → compact ((if b then none else some r) ∷ prune as_of (map some all) (map some rs))
            ≡ (if not b then r ∷ keep (unbeaten all) rs else keep (unbeaten all) rs)
      split true rest = rest
      split false rest = ap (◌∷◌ r) rest

  -- The reference: a route is left if no route of the same neighbor AS has a lower MED.
  abbrev pub lowest_per_as : List Route → List Route
  lowest_per_as rs = keep (unbeaten rs) rs

  pub deterministic_med_lem :
      (router : Router) (rs : List Route)
      → ((r : Route) → In r rs → route_path_last_as r ≡ some (as_of r))
      → dp_rule_lowest_med deterministic router rs ≡ some (lowest_per_as rs)
  unfolding dp_rule_lowest_med
  deterministic_med_lem router rs known =
      rw (med_loop_lem (length rs) (map some rs) (omega (arith, length-map rs)) known')
        (ap some (compact-prune rs rs))
    where
      length-map : (xs : List Route) → length (map some xs) ≡ length xs
      length-map [] = refl
      length-map (x ∷ xs) = ap suc (length-map xs)

      known' : Known as_of (map some rs)
      known' t i =
          let (r, j, e) = map-In some (some t) rs i in
          let q : t ≡ r = cc (e) in
          subst (λ u. route_path_last_as u ≡ some (as_of u)) (sym q) (known r j)

  -- Membership in the reference, without Boolean tests.
  pub In-lowest_per_as :
      (r : Route) (rs : List Route)
      → In r (lowest_per_as rs)
        ↔ (In r rs × ((s : Route) → In s rs → as_of s ≡ as_of r → r.attr.med ≤ s.attr.med))
  In-lowest_per_as r rs = (forth, back)
    where
      forth :
          In r (keep (unbeaten rs) rs)
          → In r rs × ((s : Route) → In s rs → as_of s ≡ as_of r → r.attr.med ≤ s.attr.med)
      forth i =
          let (j, t) = In-keep (unbeaten rs) r rs i in
          (
            j,
            λ s k e.
                ground (
                  arith,
                  t,
                  eqb_ℤ_iff (as_of s) (as_of r),
                  any_intro (λ u. beats as_of u r) s rs k,
                ),
          )

      back :
          In r rs × ((s : Route) → In s rs → as_of s ≡ as_of r → r.attr.med ≤ s.attr.med)
          → In r (keep (unbeaten rs) rs)
      back h = keep-In (unbeaten rs) r rs h.0 (elim (Bool-cases (any (λ s. beats as_of s r) rs)) [
        | inr e ↦ rw e
        | inl e ↦
            let (s, i, b) = any-In (λ s. beats as_of s r) rs e in
            absurd (ground (arith, b, eqb_ℤ_iff (as_of s) (as_of r), h.1 s i))
      ])

  -- The deterministic MED rule leaves exactly the routes such that no route learned from the same
  -- neighbor AS has a lower MED, provided that the neighbor AS of every route is defined.
  pub deterministic_med_exact :
      (router : Router) (rs : List Route)
      → ((r : Route) → In r rs → route_path_last_as r ≡ some (as_of r))
      → (out : List Route) × (dp_rule_lowest_med deterministic router rs ≡ some out)
        × ((r : Route)
            → In r out
              ↔ (In r rs × ((s : Route) → In s rs → as_of s ≡ as_of r → r.attr.med ≤ s.attr.med)))
  deterministic_med_exact router rs known =
      (lowest_per_as rs, deterministic_med_lem router rs known, λ r. In-lowest_per_as r rs)
