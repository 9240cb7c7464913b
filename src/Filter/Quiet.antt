-- ===== src/Filter/Quiet.antt =====
-- Filters whose actions leave the AS-Path alone (src/bgp/filter/filter.c).
use cbgp.Base.{
  ℕ, ◌≡◌, refl, ap, ◌∙◌, Bool, true, false, Option, none, some, List, ltb, if◌then◌else◌, ◌>>=◌,
  length, ◌∷◌, ◌++◌, [], ok, aborted,
}
use cbgp.Attr.Path.{AsPath}
use cbgp.Attr.Comm.{comms_add}
use cbgp.Route.{Route}
use cbgp.Decision.{Router}
use cbgp.Advertise.{values_of}
use cbgp.Filter.{
  Action, nop, accept, deny, comm_add, comm_remove, comm_strip, path_rem_private, metric_internal,
  prepend, insert, pref_set, metric_set, ecomm_add, Actions, Rules, done, act, jump, call, no_rules,
  rule, Verdict, denied, accepted, continue, Effect, ends, goes_on, filter_matcher_apply,
  action_step, actions_apply, rules_apply, accepted_route, filter_apply, ecomms_of, returned,
  with_med,
}
use cbgp.Filter.Chains.{after_match}

-- Actions that leave the AS-Path alone.
abbrev pub IsQuiet : Action → Type 0
IsQuiet path_rem_private = ⊥
IsQuiet (prepend n) = ⊥
IsQuiet (insert asn n) = ⊥
IsQuiet _ = Unit

unfoldable mutual
  pub QuietActions : Actions → Type 0
  QuietActions done = Unit
  QuietActions (act a rest) = IsQuiet a × QuietActions rest
  QuietActions (jump rules rest) = QuietRules rules
  QuietActions (call rules rest) = QuietRules rules

  pub QuietRules : Rules → Type 0
  QuietRules no_rules = Unit
  QuietRules (rule m actions rest) = QuietActions actions × QuietRules rest

abbrev PathKept : Route → Route → Type 0
PathKept r s = s.attr.path_ref ≡ r.attr.path_ref

inside :
    (s t : Route) → ◌≡◌ {A = Option Effect} (some (goes_on s)) (some (goes_on t)) → PathKept s t
inside s t e = ap (λ (u : Route). u.attr.path_ref) (inner e)
  where
    inner : ◌≡◌ {A = Option Effect} (some (goes_on s)) (some (goes_on t)) → t ≡ s
    inner e = cc

-- What a result says of the route it was found for.
abbrev Keeps : Route → Option (Verdict × Route) → Type 0
Keeps r none = Unit
Keeps r (some q) = PathKept r q.1

Keeps-trans : (r s : Route) (o : Option (Verdict × Route)) → PathKept r s → Keeps s o → Keeps r o
Keeps-trans r s none h k = tt
Keeps-trans r s (some q) h k = k ∙ h

module _ (intern : AsPath → AsPath) (path_match : ℕ → Option AsPath → Option Bool)
    (has_address : ℕ → Bool) (router : Router) where
  action_step-PathKept :
      (a : Action) (r s : Route)
      → IsQuiet a
      → action_step intern path_match has_address router a r ≡ some (goes_on s)
      → PathKept r s
  unfolding action_step
  action_step-PathKept nop r s q e = absurd (cc)
  action_step-PathKept accept r s q e = absurd (cc)
  action_step-PathKept deny r s q e = absurd (cc)
  action_step-PathKept (comm_add c) r s q e = go (comms_add (values_of r.attr.comms) c) e
    where
      go :
          (o : Option (List ℕ))
          → (returned r (elim o [
            | none ↦ aborted
            | some d ↦ ok (record r { attr = record (r.attr) { comms = some d } })
          ])
              >>= λ t. some (goes_on t))
            ≡ some (goes_on s)
          → PathKept r s
      go none e = absurd (cc)
      go (some d) e = inside _ s e
  action_step-PathKept (comm_remove c) r s q e = inside _ s e
  action_step-PathKept comm_strip r s q e = inside _ s e
  action_step-PathKept path_rem_private r s q e = absurd q
  action_step-PathKept metric_internal r s q e =
      go (has_address r.attr.next_hop) (router.igp_cost r.attr.next_hop) e
    where
      go :
          (b : Bool) (o : Option ℕ)
          → (if b
              then some (goes_on (with_med r 0))
              else (o >>= λ n. some (goes_on (with_med r n))))
            ≡ some (goes_on s)
          → PathKept r s
      go true o e = inside _ s e
      go false none e = absurd (cc)
      go false (some n) e = inside _ s e
  action_step-PathKept (prepend n) r s q e = absurd q
  action_step-PathKept (insert asn n) r s q e = absurd q
  action_step-PathKept (pref_set n) r s q e = inside _ s e
  action_step-PathKept (metric_set n) r s q e = inside _ s e
  action_step-PathKept (ecomm_add c) r s q e = go (ltb (length (ecomms_of r.attr.ecomms)) 255) e
    where
      go :
          (b : Bool)
          → (if b
              then some (
                  goes_on (record r {
                    attr = record (r.attr) { ecomms = some (ecomms_of r.attr.ecomms ++ c ∷ []) };
                  }))
              else none)
            ≡ some (goes_on s)
          → PathKept r s
      go true e = inside _ s e
      go false e = absurd (cc)

  mutual
    unfolding rules_apply actions_apply QuietActions QuietRules

    actions_apply-Keeps :
        (actions : Actions) (r : Route)
        → QuietActions actions
        → Keeps r (actions_apply intern path_match has_address router actions r)
    actions_apply-Keeps done r q = refl
    actions_apply-Keeps (act a rest) r q =
        go (action_step intern path_match has_address router a r) refl
          (λ s. actions_apply-Keeps rest s q.1)
      where
        go :
            (o : Option Effect)
            → action_step intern path_match has_address router a r ≡ o
            → ((s : Route) → Keeps s (actions_apply intern path_match has_address router rest s))
            → Keeps r (
                o >>= λ e. elim e [
                  | ends v ↦ some (v, r)
                  | goes_on s ↦ actions_apply intern path_match has_address router rest s
                ])
        go none e h = tt
        go (some (ends v)) e h = refl
        go (some (goes_on s)) e h = Keeps-trans r s _ (action_step-PathKept a r s q.0 e) (h s)
    actions_apply-Keeps (jump rules rest) r q = rules_apply-Keeps accepted rules r q
    actions_apply-Keeps (call rules rest) r q = rules_apply-Keeps continue rules r q

    rules_apply-Keeps :
        (end : Verdict) (rules : Rules) (r : Route)
        → QuietRules rules
        → Keeps r (rules_apply intern path_match has_address router end rules r)
    rules_apply-Keeps end no_rules r q = refl
    rules_apply-Keeps end (rule m actions rest) r q =
        go (filter_matcher_apply path_match m r)
          (actions_apply intern path_match has_address router actions r)
          (actions_apply-Keeps actions r q.0) (λ s. rules_apply-Keeps end rest s q.1)
      where
        go :
            (o : Option Bool) (p : Option (Verdict × Route))
            → Keeps r p
            → ((s : Route) → Keeps s (rules_apply intern path_match has_address router end rest s))
            → Keeps r (after_match intern path_match has_address router end rest r o p)
        go none p k h = tt
        go (some false) p k h = h r
        go (some true) none k h = tt
        go (some true) (some (continue, s)) k h = Keeps-trans r s _ k (h s)
        go (some true) (some (denied, s)) k h = k
        go (some true) (some (accepted, s)) k h = k

  pub filter_apply-path :
      (rules : Rules) (r s : Route)
      → QuietRules rules
      → filter_apply intern path_match has_address router (some rules) r ≡ some (some s)
      → s.attr.path_ref ≡ r.attr.path_ref
  unfolding filter_apply
  filter_apply-path rules r s q e =
      go (rules_apply intern path_match has_address router accepted rules r)
        (rules_apply-Keeps accepted rules r q) e
    where
      inner : (t : Route) → ◌≡◌ {A = Option (Option Route)} (some (some t)) (some (some s)) → s ≡ t
      inner t e = cc

      go :
          (o : Option (Verdict × Route))
          → Keeps r o
          → (o >>= λ p. some (accepted_route p)) ≡ some (some s)
          → s.attr.path_ref ≡ r.attr.path_ref
      go none k e = absurd (cc)
      go (some (denied, t)) k e = absurd (cc)
      go (some (accepted, t)) k e = ap (λ (u : Route). u.attr.path_ref) (inner t e) ∙ k
      go (some (continue, t)) k e = ap (λ (u : Route). u.attr.path_ref) (inner t e) ∙ k
