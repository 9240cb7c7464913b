-- ===== src/Filter/Chains.antt =====
-- Sequences of rules behind jumps and calls (src/bgp/filter/filter.c).
use cbgp.Base.{ℕ, ◌≡◌, refl, sym, Bool, true, false, Option, none, some, ◌>>=◌}
use cbgp.Attr.Path.{AsPath}
use cbgp.Route.{Route}
use cbgp.Decision.{Router}
use cbgp.Filter.{
  Rules, done, jump, call, no_rules, rule, Verdict, denied, accepted, continue,
  filter_matcher_apply, actions_apply, rules_apply,
}

-- The rules of one sequence behind those of another.
abbrev pub then_rules : Rules → Rules → Rules
then_rules no_rules ys = ys
then_rules (rule m actions rest) ys = rule m actions (then_rules rest ys)

module _ (intern : AsPath → AsPath) (path_match : ℕ → Option AsPath → Option Bool)
    (has_address : ℕ → Bool) (router : Router) where
  -- What stands behind a result: on with further rules if it is `continue`.
  abbrev resume : Verdict → Rules → Verdict × Route → Option (Verdict × Route)
  resume end ys q = elim q.0 [
    | continue ↦ rules_apply intern path_match has_address router end ys q.1
    | w ↦ some (w, q.1)
  ]

  -- What the loop does behind the test of a rule.
  abbrev pub after_match :
      Verdict → Rules → Route → Option Bool → Option (Verdict × Route) → Option (Verdict × Route)
  after_match v zs r o p = o >>= λ t. elim t [
    | false ↦ rules_apply intern path_match has_address router v zs r
    | true ↦ p >>= λ q. elim q.0 [
      | continue ↦ rules_apply intern path_match has_address router v zs q.1
      | w ↦ some (w, q.1)
    ]
  ]

  rules_apply-then_rules :
      (end : Verdict) (xs ys : Rules) (r : Route)
      → rules_apply intern path_match has_address router end (then_rules xs ys) r
        ≡ (rules_apply intern path_match has_address router continue xs r >>= resume end ys)
  unfolding rules_apply
  rules_apply-then_rules end no_rules ys r = refl
  rules_apply-then_rules end (rule m actions rest) ys r =
      go (filter_matcher_apply path_match m r)
        (actions_apply intern path_match has_address router actions r)
        (λ s. rules_apply-then_rules end rest ys s)
    where
      go :
          (o : Option Bool) (p : Option (Verdict × Route))
          → ((s : Route)
              → rules_apply intern path_match has_address router end (then_rules rest ys) s ≡ (
                  rules_apply intern path_match has_address router continue rest s
                  >>= resume end ys))
          → after_match end (then_rules rest ys) r o p
            ≡ (after_match continue rest r o p >>= resume end ys)
      go none p h = refl
      go (some false) p h = h r
      go (some true) none h = refl
      go (some true) (some (continue, s)) h = h s
      go (some true) (some (denied, s)) h = refl
      go (some true) (some (accepted, s)) h = refl

  -- A filter as a whole never answers `continue`.
  rules_apply-resume :
      (end : Verdict) (xs ys : Rules) (r : Route)
      → (rules_apply intern path_match has_address router accepted xs r >>= resume end ys)
        ≡ rules_apply intern path_match has_address router accepted xs r
  unfolding rules_apply
  rules_apply-resume end no_rules ys r = refl
  rules_apply-resume end (rule m actions rest) ys r =
      go (filter_matcher_apply path_match m r)
        (actions_apply intern path_match has_address router actions r)
        (λ s. rules_apply-resume end rest ys s)
    where
      go :
          (o : Option Bool) (p : Option (Verdict × Route))
          → ((s : Route)
              → (rules_apply intern path_match has_address router accepted rest s >>= resume end ys)
                ≡ rules_apply intern path_match has_address router accepted rest s)
          → (after_match accepted rest r o p >>= resume end ys) ≡ after_match accepted rest r o p
      go none p h = refl
      go (some false) p h = h r
      go (some true) none h = refl
      go (some true) (some (continue, s)) h = h s
      go (some true) (some (denied, s)) h = refl
      go (some true) (some (accepted, s)) h = refl

  -- A call without a predicate is the same as the rules of the called filter in its place; a jump
  -- without a predicate is the same as these rules as a filter of their own, whatever stands behind.
  pub call_inline :
      (end : Verdict) (xs ys : Rules) (r : Route)
      → (rules_apply intern path_match has_address router end (rule none (call xs done) ys) r
          ≡ rules_apply intern path_match has_address router end (then_rules xs ys) r)
        × (rules_apply intern path_match has_address router end (rule none (jump xs done) ys) r
            ≡ rules_apply intern path_match has_address router accepted xs r)
  unfolding rules_apply actions_apply
  call_inline end xs ys r =
      (sym (rules_apply-then_rules end xs ys r), rules_apply-resume end xs ys r)
