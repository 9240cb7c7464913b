-- ===== src/Decision/Med/Scan.antt =====
-- The inner loop of the deterministic MED rule (dp_rule_lowest_med in src/bgp/dp_rules.c).
use cbgp.Base.{
  ◌≡◌, refl, sym, ap, ◌∙◌, Bool, true, false, Option, none, some, List, [], ◌∷◌, arith, In, inl,
  inr, Bool-cases,
}
use cbgp.Base.Int.{ℤ, eqb_ℤ_iff}
use cbgp.Route.{Route, route_path_last_as}
use cbgp.Decision.{entry, med_scan}
use cbgp.Decision.Med.{beats, Scanned, done, same, nulls, Scanned-refl, Verdict, stays, goes}

module _ (as_of : Route → ℤ) where
  -- Every live entry has a known neighbor AS.
  abbrev pub Known : List (Option Route) → Type 0
  Known es = (t : Route) → In (some t) es → route_path_last_as t ≡ some (as_of t)

  -- The loop returns the entries and the verdict on r.
  pub record Scan (r : Route) (es : List (Option Route)) : Type 0 where
    pub out : List (Option Route)
    pub kept : Bool
    pub runs : med_scan r (as_of r) es ≡ some (out, kept)
    pub scanned : Scanned as_of r es out
    pub verdict : Verdict as_of r es out kept

  push_same :
      (r : Route) (e : Option Route) (es es' : List (Option Route)) (k : Bool)
      → ((t : Route) → e ≡ some t → (beats as_of r t ≡ false) × (beats as_of t r ≡ false))
      → Verdict as_of r es es' k
      → Verdict as_of r (e ∷ es) (e ∷ es') k
  push_same r none es es' _ h (stays b f) = stays b (λ t i. elim i [ inl q ↦ cc | inr j ↦ f t j ])
  push_same r (some u) es es' _ h (stays b f) =
      stays (rw ((h u refl).1) b) (λ t i. elim i [ inl q ↦ (h t (sym q)).0 | inr j ↦ f t j ])
  push_same r e es es' _ h (goes s i b) = goes s (inr i) b

  push_null :
      (r u : Route) (es es' : List (Option Route)) (k : Bool)
      → beats as_of u r ≡ false
      → Verdict as_of r es es' k
      → Verdict as_of r (some u ∷ es) (none ∷ es') k
  push_null r u es es' _ h (stays b f) =
      stays (rw h b) (λ t i. elim i [ inl q ↦ cc | inr j ↦ f t j ])
  push_null r u es es' _ h (goes s i b) = goes s (inr i) b

  scan_same :
      (r : Route) (e : Option Route) (es : List (Option Route))
      → med_scan r (as_of r) (e ∷ es) ≡ entry e (med_scan r (as_of r) es)
      → ((t : Route) → e ≡ some t → (beats as_of r t ≡ false) × (beats as_of t r ≡ false))
      → Scan r es
      → Scan r (e ∷ es)
  scan_same r e es step h s = record {
    out = e ∷ s.out;
    kept = s.kept;
    runs = step ∙ rw s.runs;
    scanned = same e s.scanned;
    verdict = push_same r e es s.out s.kept h s.verdict;
  }

  module _ (r u : Route) (es : List (Option Route))
      (known : route_path_last_as u ≡ some (as_of u)) where
    step_null :
        beats as_of r u ≡ true
        → med_scan r (as_of r) (some u ∷ es) ≡ entry none (med_scan r (as_of r) es)
    unfolding med_scan
    step_null b = rw (known, med_scan) (ground (arith, b))

    step_break :
        beats as_of u r ≡ true → med_scan r (as_of r) (some u ∷ es) ≡ some (some u ∷ es, false)
    unfolding med_scan
    step_break b =
        rw (known, med_scan)
          (ground (arith, b, eqb_ℤ_iff (as_of u) (as_of r), eqb_ℤ_iff (as_of r) (as_of u)))

    step_same :
        beats as_of r u ≡ false
        → beats as_of u r ≡ false
        → med_scan r (as_of r) (some u ∷ es) ≡ entry (some u) (med_scan r (as_of r) es)
    unfolding med_scan
    step_same b c =
        rw (known, med_scan)
          (ground (arith, b, c, eqb_ℤ_iff (as_of u) (as_of r), eqb_ℤ_iff (as_of r) (as_of u)))

    not_both : beats as_of r u ≡ true → beats as_of u r ≡ false
    not_both b = ground arith

    -- A live entry: r takes it out, it takes r out, or neither.
    scan_some : Scan r es → Scan r (some u ∷ es)
    scan_some s = elim (Bool-cases (beats as_of r u)) [
      | inl b ↦ record {
        out = none ∷ s.out;
        kept = s.kept;
        runs = step_null b ∙ rw s.runs;
        scanned = nulls u b s.scanned;
        verdict = push_null r u es s.out s.kept (not_both b) s.verdict;
      }
      | inr b ↦ elim (Bool-cases (beats as_of u r)) [
        | inl c ↦ record {
          out = some u ∷ es;
          kept = false;
          runs = step_break c;
          scanned = Scanned-refl as_of r (some u ∷ es);
          verdict = goes u (inl refl) c;
        }
        | inr c ↦
            scan_same r (some u) es (step_same b c)
              (λ t e. ground (arith, e, b, c, ap (λ (o : Option Route). o) e)) s
      ]
    ]

  pub med_scan_lem : (r : Route) (es : List (Option Route)) → Known es → Scan r es
  unfolding med_scan
  med_scan_lem r [] known = record {
    out = [];
    kept = true;
    runs = refl;
    scanned = done;
    verdict = stays refl (λ t i. absurd i);
  }
  med_scan_lem r (none ∷ es) known =
      scan_same r none es refl (λ t e. cc) (med_scan_lem r es (λ t i. known t (inr i)))
  med_scan_lem r (some u ∷ es) known =
      scan_some r u es (known u (inl refl)) (med_scan_lem r es (λ t i. known t (inr i)))
