-- ===== src/Filter.antt =====
-- Route filters: src/bgp/filter/filter.c and src/bgp/filter/types.h. A filter is a sequence of rules,
-- each a predicate (NULL matches everything) and a chain of actions. A jump or a call holds the
-- rules of the other filter, which its action shares by pointer; a filter that reaches itself, on
-- which the code does not return, has no counterpart. `none` is an abort.
--
-- Parameters: `intern` (the repository of AS-Paths), `path_match` (the table of compiled regular
-- expressions and the matching of one of them, libpcre) and `has_address` (node_has_address).
pub mod Matchers
pub mod Chains
pub mod Quiet
pub mod Predicate
pub mod Export
use Prim.Native.Nat.{Ordering}
use cbgp.Base.{
  ℕ, ◌+◌, ◌≡◌, Bool, true, false, not, Option, none, some, List, [], ◌∷◌, ◌++◌, length, ltb, leb,
  ◌==◌, if◌then◌else◌, ◌>>=◌, Outcome, ok, error, aborted,
}
use cbgp.Net.Prefix.{
  Prefix, ip_prefix_cmp, ip_address_in_prefix, ip_prefix_in_prefix, ip_prefix_ge_prefix,
  ip_prefix_le_prefix,
}
use cbgp.Attr.Path.{AsPath, path_remove_private, segments_of}
use cbgp.Attr.Comm.{comms_contains, comms_remove}
use cbgp.Route.{Ecomm, Route}
use cbgp.Decision.{Router}
use cbgp.Advertise.{path_prepend, comm_append}

-- bgp_ft_matcher_t, with the codes FT_MATCH_*.
pub data Matcher : Type 0 where
  match_any : Matcher
  match_and match_or : Matcher → Matcher → Matcher
  match_not : Matcher → Matcher
  match_comm_contains : ℕ → Matcher
  match_path : ℕ → Matcher
  match_nexthop_is : ℕ → Matcher
  match_nexthop_in match_prefix_is match_prefix_in : Prefix → Matcher
  match_prefix_ge match_prefix_le : Prefix → ℕ → Matcher

-- bgp_ft_action_t but for the jumps, with the codes FT_ACTION_*.
pub data Action : Type 0 where
  nop accept deny : Action
  comm_add comm_remove : ℕ → Action
  comm_strip path_rem_private metric_internal : Action
  prepend : ℕ → Action
  insert : ℕ → ℕ → Action
  pref_set metric_set : ℕ → Action
  ecomm_add : Ecomm → Action

mutual
  -- A chain of actions, and a sequence of rules.
  pub data Actions : Type 0 where
    done : Actions
    act : Action → Actions → Actions
    jump call : Rules → Actions → Actions

  pub data Rules : Type 0 where
    no_rules : Rules
    rule : Option Matcher → Actions → Rules → Rules

-- What an action or a filter answers: 0, 1 or 2.
pub data Verdict : Type 0 where
  denied accepted continue : Verdict

abbrev is_equal : Ordering → Bool
is_equal Ordering.eq = true
is_equal _ = false

module _ (path_match : ℕ → Option AsPath → Option Bool) where
  -- Both connectives evaluate their second operand only if they need it.
  unfoldable pub matcher_apply : Matcher → Route → Option Bool
  unfolding comms_contains ip_prefix_cmp ip_address_in_prefix ip_prefix_in_prefix
      ip_prefix_ge_prefix ip_prefix_le_prefix
  matcher_apply match_any r = some true
  matcher_apply (match_and m n) r =
      matcher_apply m r >>= λ t. elim t [ true ↦ matcher_apply n r | false ↦ some false ]
  matcher_apply (match_or m n) r =
      matcher_apply m r >>= λ t. elim t [ true ↦ some true | false ↦ matcher_apply n r ]
  matcher_apply (match_not m) r = matcher_apply m r >>= λ t. some (not t)
  matcher_apply (match_comm_contains c) r = some (comms_contains r.attr.comms c)
  matcher_apply (match_path i) r = path_match i r.attr.path_ref
  matcher_apply (match_nexthop_is a) r = some (r.attr.next_hop == a)
  matcher_apply (match_nexthop_in p) r = ip_address_in_prefix r.attr.next_hop p
  matcher_apply (match_prefix_is p) r = ip_prefix_cmp false r.prefix p >>= λ c. some (is_equal c)
  matcher_apply (match_prefix_in p) r = ip_prefix_in_prefix r.prefix p
  matcher_apply (match_prefix_ge p n) r = ip_prefix_ge_prefix r.prefix p n
  matcher_apply (match_prefix_le p n) r = ip_prefix_le_prefix r.prefix p n

  -- filter_matcher_apply on a pointer.
  abbrev pub filter_matcher_apply : Option Matcher → Route → Option Bool
  filter_matcher_apply none r = some true
  filter_matcher_apply (some m) r = matcher_apply m r

-- sizeof(bgp_ft_matcher_t), packed, and the size of the parameters of a matcher.
abbrev pub matcher_header : ℕ
matcher_header = 5

abbrev pub matcher_size : Matcher → ℕ
matcher_size match_any = 0
matcher_size (match_and m n) = matcher_size m + matcher_header + (matcher_size n + matcher_header)
matcher_size (match_or m n) = matcher_size m + matcher_header + (matcher_size n + matcher_header)
matcher_size (match_not m) = matcher_size m + matcher_header
matcher_size (match_prefix_ge p n) = 9
matcher_size (match_prefix_le p n) = 9
matcher_size (match_nexthop_in p) = 8
matcher_size (match_prefix_is p) = 8
matcher_size (match_prefix_in p) = 8
matcher_size _ = 4

-- _ft_match_compound: the size must fit an unsigned char; `size` is that of the operands.
abbrev pub match_compound : Matcher → Option (Option Matcher)
match_compound m = if leb (matcher_size m) 255 then some (some m) else none

abbrev pub is_any : Option Matcher → Bool
is_any none = true
is_any (some match_any) = true
is_any (some _) = false

-- The constructors of compound matchers: the inner `none` is NULL, the outer one an abort.
unfoldable pub filter_match_and : Option Matcher → Option Matcher → Option (Option Matcher)
filter_match_and m n = if is_any m then some n else if is_any n then some m else elim m [
  | none ↦ some n
  | some a ↦ elim n [ none ↦ some (some a) | some b ↦ match_compound (match_and a b) ]
]

unfoldable pub filter_match_or : Option Matcher → Option Matcher → Option (Option Matcher)
filter_match_or m n = if is_any m then some none else if is_any n then some none else elim m [
  | none ↦ some none
  | some a ↦ elim n [ none ↦ some none | some b ↦ match_compound (match_or a b) ]
]

-- NULL is dereferenced by _ft_match_compound.
unfoldable pub filter_match_not : Option Matcher → Option (Option Matcher)
filter_match_not none = none
filter_match_not (some (match_not m)) = some (some m)
filter_match_not (some m) = match_compound (match_not m)

-- The end of the calls, as `Option`: a -1 is not looked at by the callers here.
abbrev pub returned : Route → Outcome Route → Option Route
returned r (ok s) = some s
returned r error = some r
returned r aborted = none

abbrev ecomms_of : Option (List Ecomm) → List Ecomm
ecomms_of none = []
ecomms_of (some cs) = cs

abbrev pub with_med : Route → ℕ → Route
with_med r n = record r { attr = record (r.attr) { med = n } }

-- What one action does: it ends the chain, or changes the route.
pub data Effect : Type 0 where
  ends : Verdict → Effect
  goes_on : Route → Effect

-- The route is refused (the inner `none`) or accepted, perhaps changed.
abbrev pub accepted_route : Verdict × Route → Option Route
accepted_route (denied, r) = none
accepted_route (accepted, r) = some r
accepted_route (continue, r) = some r

module _ (intern : AsPath → AsPath) (path_match : ℕ → Option AsPath → Option Bool)
    (has_address : ℕ → Bool) (router : Router) where
  path_strip_private : Route → Option Route
  unfolding path_remove_private
  path_strip_private r = path_remove_private (segments_of r.attr.path_ref) >>= λ p.
      some (record r { attr = record (r.attr) { path_ref = some (intern p) } })

  -- The switch of filter_action_apply. FT_ACTION_NOP has no case there and is fatal; an extended
  -- community beyond the 255th overruns the count.
  unfoldable pub action_step : Action → Route → Option Effect
  unfolding path_prepend comms_remove path_strip_private
  action_step nop r = none
  action_step accept r = some (ends accepted)
  action_step deny r = some (ends denied)
  action_step (comm_add c) r = returned r (comm_append r c) >>= λ s. some (goes_on s)
  action_step (comm_remove c) r =
      some (goes_on (record r { attr = record (r.attr) { comms = comms_remove r.attr.comms c } }))
  action_step comm_strip r = some (goes_on (record r { attr = record (r.attr) { comms = none } }))
  action_step path_rem_private r = path_strip_private r >>= λ s. some (goes_on s)
  action_step metric_internal r =
      if has_address r.attr.next_hop
      then some (goes_on (with_med r 0))
      else (router.igp_cost r.attr.next_hop >>= λ n. some (goes_on (with_med r n)))
  action_step (prepend n) r =
      returned r (path_prepend intern r router.asn n) >>= λ s. some (goes_on s)
  action_step (insert asn n) r = returned r (path_prepend intern r asn n) >>= λ s. some (goes_on s)
  action_step (pref_set n) r =
      some (goes_on (record r { attr = record (r.attr) { local_pref = n } }))
  action_step (metric_set n) r = some (goes_on (with_med r n))
  action_step (ecomm_add c) r =
      if ltb (length (ecomms_of r.attr.ecomms)) 255
      then some (
          goes_on (record r {
            attr = record (r.attr) { ecomms = some (ecomms_of r.attr.ecomms ++ c ∷ []) };
          }))
      else none

  unfoldable mutual
    unfolding matcher_apply action_step

    -- filter_action_apply. What stands behind a jump or a call in the chain is not reached.
    pub actions_apply : Actions → Route → Option (Verdict × Route)
    actions_apply done r = some (continue, r)
    actions_apply (act a rest) r =
        action_step a r >>= λ e. elim e [ ends v ↦ some (v, r) | goes_on s ↦ actions_apply rest s ]
    actions_apply (jump rules rest) r = rules_apply accepted rules r
    actions_apply (call rules rest) r = rules_apply continue rules r

    -- The loop of filter_apply and filter_call over the rules: `end` is the answer behind the last.
    pub rules_apply : Verdict → Rules → Route → Option (Verdict × Route)
    rules_apply end no_rules r = some (end, r)
    rules_apply end (rule m actions rest) r = filter_matcher_apply path_match m r >>= λ t. elim t [
      | false ↦ rules_apply end rest r
      | true ↦ actions_apply actions r >>= λ q. elim q.0 [
        | continue ↦ rules_apply end rest q.1
        | v ↦ some (v, q.1)
      ]
    ]

  -- filter_apply on a pointer, as the code that applies a filter sees it.
  unfoldable pub filter_apply : Option Rules → Route → Option (Option Route)
  unfolding actions_apply rules_apply
  filter_apply none r = some (some r)
  filter_apply (some rules) r = rules_apply accepted rules r >>= λ q. some (accepted_route q)
