-- ===== src/AsLevel/OneLink.antt =====
-- What the filters of an AS-level topology make of a route at one link
-- (src/bgp/aslevel/as-level.c).
use mathlib.Core.List.{append-nil}
use cbgp.Base.{
  ℕ, ◌<◌, ◌≡◌, refl, ap, sym, ◌∙◌, Bool, true, false, ◌||◌, Option, none, some, List, [], ◌∷◌, ◌++◌,
  length, ok, aborted, if◌then◌else◌, ◌>>=◌,
}
use cbgp.Attr.Path.{AsPath}
use cbgp.Attr.Comm.{comms_contains, contains_value}
use cbgp.Attr.Comm.Laws.{values}
use cbgp.Route.{Route}
use cbgp.Decision.{Router}
use cbgp.Advertise.{with_comms}
use cbgp.Filter.{
  Matcher, match_or, match_comm_contains, deny, filter_matcher_apply, Action, comm_add, pref_set,
  Rules, no_rules, rule, done, act, Verdict, accepted, denied, continue, Effect, ends, goes_on,
  returned, accepted_route, matcher_apply, action_step, actions_apply, rules_apply, filter_apply,
}
use cbgp.AsLevel.{PeerType, customer, provider, peer, sibling, unknown}
use cbgp.AsLevel.Policies.{
  comm_prov, comm_peer, pref_of, untag, aslevel_filter_in, aslevel_filter_out,
}
use cbgp.AsLevel.Tags.{
  tag, IsUntagged, From, IsClass, is_customer, exports, stripped, tagged_route, comms_add_free,
  comms_contains-values, contains_value-append,
}

module _ (intern : AsPath → AsPath) (path_match : ℕ → Option AsPath → Option Bool)
    (has_address : ℕ → Bool) where
  abbrev pub Imports : Router → PeerType → List ℕ → Route → Type 0
  Imports router t base r =
      (s : Route) × (filter_apply intern path_match has_address router (aslevel_filter_in t) r
        ≡ some (some s))
      × From t base s
      × (s.attr.local_pref ≡ pref_of t)

  -- A rule without a predicate and with one action that goes on.
  rule_step :
      (router : Router) (end : Verdict) (a : Action) (rest : Rules) (r s : Route)
      → action_step intern path_match has_address router a r ≡ some (goes_on s)
      → rules_apply intern path_match has_address router end (rule none (act a done) rest) r
        ≡ rules_apply intern path_match has_address router end rest s
  unfolding rules_apply actions_apply
  rule_step router end a rest r s e =
      joined (action_step intern path_match has_address router a r) ∙ ap onwards e
    where
      ended : Verdict × Route → Option (Verdict × Route)
      ended (continue, u) = rules_apply intern path_match has_address router end rest u
      ended (denied, u) = some (denied, u)
      ended (accepted, u) = some (accepted, u)

      acted : Effect → Option (Verdict × Route)
      acted (ends v) = some (v, r)
      acted (goes_on u) = some (continue, u)

      onwards : Option Effect → Option (Verdict × Route)
      onwards o = o >>= acted >>= ended

      joined :
          (o : Option Effect)
          → ◌>>=◌ {A = Verdict × Route}
              (o >>= λ x. elim x [
                | ends v ↦ some (v, r)
                | goes_on u ↦ actions_apply intern path_match has_address router done u
              ])
              (λ q. elim q.0 [
                | continue ↦ rules_apply intern path_match has_address router end rest q.1
                | v ↦ some (v, q.1)
              ])
            ≡ onwards o
      joined none = refl
      joined (some (goes_on u)) = refl
      joined (some (ends continue)) = refl
      joined (some (ends denied)) = refl
      joined (some (ends accepted)) = refl

  add_step :
      (router : Router) (base : List ℕ) (a : ℕ) (r : Route)
      → length base < 255
      → values r.attr.comms ≡ base
      → action_step intern path_match has_address router (comm_add a) r
        ≡ some (goes_on (with_comms r (base ++ a ∷ [])))
  unfolding action_step
  add_step router base a r h e = ap added (comms_add_free r.attr.comms base a e h)
    where
      added : Option (List ℕ) → Option Effect
      added o = returned r (elim o [ none ↦ aborted | some c ↦ ok (with_comms r c) ]) >>= λ s.
          some (goes_on s)

  whole : Option (Verdict × Route) → Option (Option Route)
  whole o = o >>= λ q. some (accepted_route q)

  tag_rules :
      (router : Router) (base : List ℕ) (a n : ℕ) (r : Route)
      → length base < 255
      → values r.attr.comms ≡ base
      → filter_apply intern path_match has_address router
          (some (rule none (act (comm_add a) done) (rule none (act (pref_set n) done) no_rules)))
          r
        ≡ some (some (tagged_route r base a n))
  unfolding filter_apply whole
  tag_rules router base a n r h e = ap whole (
      rule_step router accepted (comm_add a) (rule none (act (pref_set n) done) no_rules) r
        (with_comms r (base ++ a ∷ [])) (add_step router base a r h e)
      ∙ last)
    where
      last :
          rules_apply intern path_match has_address router accepted
            (rule none (act (pref_set n) done) no_rules)
            (with_comms r (base ++ a ∷ []))
          ≡ some (accepted, tagged_route r base a n)
      last = unfold rules_apply actions_apply action_step in refl

  pub imported :
      (router : Router) (t : PeerType) (base : List ℕ) (r : Route)
      → IsClass t
      → length base < 255
      → values r.attr.comms ≡ base
      → Imports router t base r
  unfolding aslevel_filter_in
  imported router customer base r c h e = (
    record r { attr = record (r.attr) { local_pref = 100 } },
    unfold filter_apply rules_apply actions_apply action_step in refl,
    e ∙ sym (append-nil base),
    refl,
  )
  imported router provider base r c h e =
      (tagged_route r base comm_prov 60, tag_rules router base comm_prov 60 r h e, refl, refl)
  imported router peer base r c h e =
      (tagged_route r base comm_peer 80, tag_rules router base comm_peer 80 r h e, refl, refl)
  imported router sibling base r c h e = absurd c
  imported router unknown base r c h e = absurd c

  -- A rule that denies what its predicate matches.
  guarded :
      (router : Router) (m : Option Matcher) (t : Bool) (s : Route)
      → filter_matcher_apply path_match m s ≡ some t
      → filter_apply intern path_match has_address router (some (rule m (act deny done) untag)) s
        ≡ some (if t then none else some (stripped s))
  unfolding filter_apply rules_apply actions_apply action_step
  guarded router m t s e = ap matched e ∙ answered t
    where
      judged : Bool → Option (Verdict × Route)
      judged b = elim b [
        | false ↦ rules_apply intern path_match has_address router accepted untag s
        | true ↦ some (denied, s)
      ]

      matched : Option Bool → Option (Option Route)
      matched o = o >>= judged >>= λ q. some (accepted_route q)

      answered : (b : Bool) → matched (some b) ≡ some (if b then none else some (stripped s))
      answered true = refl
      answered false = refl

  has_tag : PeerType → Bool
  has_tag customer = false
  has_tag provider = true
  has_tag peer = true
  has_tag _ = false

  untagged :
      (t : PeerType) (o : Option Route)
      → IsClass t
      → (if has_tag t then none else o) ≡ (if is_customer t then o else none)
  unfolding has_tag
  untagged customer o c = refl
  untagged provider o c = refl
  untagged peer o c = refl
  untagged sibling o c = absurd c
  untagged unknown o c = absurd c

  both_tags : Option Matcher
  both_tags = some (match_or (match_comm_contains comm_prov) (match_comm_contains comm_peer))

  tagged_value :
      (from : PeerType) (base : List ℕ) (s : Route)
      → IsUntagged base
      → From from base s
      → filter_matcher_apply path_match both_tags s ≡ some (has_tag from)
  unfolding matcher_apply both_tags has_tag
  tagged_value from base s h e =
      ap (λ (b : Bool). either b (comms_contains s.attr.comms comm_peer)) (found comm_prov h.0)
      ∙ ap (either (contains_value (tag from) comm_prov)) (found comm_peer h.1)
      ∙ tags from
    where
      either : Bool → Bool → Option Bool
      either a b = elim a [ false ↦ some b | true ↦ some true ]

      found :
          (a : ℕ)
          → contains_value base a ≡ false
          → comms_contains s.attr.comms a ≡ contains_value (tag from) a
      found a f =
          comms_contains-values s.attr.comms a
          ∙ ap (λ (c : List ℕ). contains_value c a) e
          ∙ contains_value-append base (tag from) a
          ∙ ap (λ (b : Bool). b || contains_value (tag from) a) f

      tags :
          (t : PeerType)
          → either (contains_value (tag t) comm_prov) (contains_value (tag t) comm_peer)
            ≡ some (has_tag t)
      tags customer = refl
      tags provider = refl
      tags peer = refl
      tags sibling = refl
      tags unknown = refl

  pub exported :
      (router : Router) (from to : PeerType) (base : List ℕ) (s : Route)
      → IsClass from
      → IsClass to
      → IsUntagged base
      → From from base s
      → (aslevel_filter_out to >>= λ rules.
          filter_apply intern path_match has_address router rules s)
        ≡ some (if exports from to then some (stripped s) else none)
  unfolding aslevel_filter_out has_tag both_tags
  exported router from customer base s c d h e =
      unfold filter_apply rules_apply actions_apply action_step in refl
  exported router from provider base s c d h e =
      guarded router both_tags (has_tag from) s (tagged_value from base s h e)
      ∙ ap some (untagged from (some (stripped s)) c)
  exported router from peer base s c d h e =
      guarded router both_tags (has_tag from) s (tagged_value from base s h e)
      ∙ ap some (untagged from (some (stripped s)) c)
  exported router from sibling base s c d h e = absurd d
  exported router from unknown base s c d h e = absurd d
