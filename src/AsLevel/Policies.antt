-- ===== src/AsLevel/Policies.antt =====
-- The filters of an AS-level topology: aslevel_filter_in and aslevel_filter_out of
-- src/bgp/aslevel/as-level.c.
use cbgp.Base.{ℕ, Bool, Option, none, some, List, [], ◌∷◌, ◌>>=◌}
use cbgp.Attr.Path.{AsPath}
use cbgp.Route.{Route}
use cbgp.Decision.{Router}
use cbgp.Filter.{
  Matcher, match_comm_contains, Rules, no_rules, rule, done, act, deny, comm_add, comm_remove,
  pref_set, filter_match_or, filter_apply,
}
use cbgp.AsLevel.{PeerType, customer, provider, peer, sibling, unknown, reverse_relation}

-- COMM_PROV and COMM_PEER.
abbrev pub comm_prov : ℕ
comm_prov = 1

abbrev pub comm_peer : ℕ
comm_peer = 10

-- The preferences ASLEVEL_PREF_*.
abbrev pub pref_of : PeerType → ℕ
pref_of customer = 100
pref_of peer = 80
pref_of provider = 60
pref_of _ = 0

unfoldable pub aslevel_filter_in : PeerType → Option Rules
aslevel_filter_in customer = some (rule none (act (pref_set (pref_of customer)) done) no_rules)
aslevel_filter_in provider = some (
    rule none (act (comm_add comm_prov) done)
      (rule none (act (pref_set (pref_of provider)) done) no_rules))
aslevel_filter_in peer = some (
    rule none (act (comm_add comm_peer) done)
      (rule none (act (pref_set (pref_of peer)) done) no_rules))
aslevel_filter_in sibling = none
aslevel_filter_in unknown = none

-- The rules that take the tags off.
abbrev pub untag : Rules
untag =
    rule none (act (comm_remove comm_prov) done)
      (rule none (act (comm_remove comm_peer) done) no_rules)

-- The matcher of FTM_OR on the two tags.
abbrev pub tagged : Option (Option Matcher)
tagged =
    filter_match_or (some (match_comm_contains comm_prov)) (some (match_comm_contains comm_peer))

-- The inner `none` is no filter, the outer one an abort.
unfoldable pub aslevel_filter_out : PeerType → Option (Option Rules)
unfolding filter_match_or
aslevel_filter_out customer = some (some untag)
aslevel_filter_out provider = tagged >>= λ m. some (some (rule m (act deny done) untag))
aslevel_filter_out peer = tagged >>= λ m. some (some (rule m (act deny done) untag))
aslevel_filter_out sibling = some none
aslevel_filter_out unknown = some none

module _ (intern : AsPath → AsPath) (path_match : ℕ → Option AsPath → Option Bool)
    (has_address : ℕ → Bool) where
  -- A route at a domain that received it, in the input filter for its relation with the sender.
  abbrev pub received : Router → PeerType → Option Route → Option (Option Route)
  received router from none = some none
  received router from (some r) =
      filter_apply intern path_match has_address router (aslevel_filter_in from) r

  -- A route goes from one domain to the next: through the output filter of the first, for which the
  -- second is a `to`, and through the input filter of the second, for which the first is the reverse.
  -- The inner `none` is a denied route.
  abbrev pub policy_hop : Router → Router → PeerType → Route → Option (Option Route)
  policy_hop sender receiver to r =
      (aslevel_filter_out to >>= λ rules. filter_apply intern path_match has_address sender rules r)
      >>= λ o. received receiver (reverse_relation to) o

  -- A route that starts at a domain and goes along a list of hops, each the relation of the next
  -- domain to the one before it, with the router of that domain.
  abbrev pub policy_path : Router → List (PeerType × Router) → Route → Option (Option Route)
  policy_path at [] r = some (some r)
  policy_path at (hop ∷ hops) r = policy_hop at hop.1 hop.0 r >>= λ o. elim o [
    | none ↦ some none
    | some s ↦ policy_path hop.1 hops s
  ]
