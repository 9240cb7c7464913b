-- ===== src/Decision/Keys.antt =====
-- What the rules of src/bgp/dp_rules.c compare, as total functions, and the routes on which every
-- rule is defined.
use cbgp.Base.{
  ℕ, ◌-◌, ◌≤◌, ◌<◌, ◌≡◌, Option, none, some, List, [], ◌∷◌, In, ◌==◌, if◌then◌else◌, ◌⊎◌,
}
use cbgp.Base.Int.{ℤ, minus_one}
use cbgp.Attr.Path.{segments_of}
use cbgp.Attr.Path.Length.{IsWellPath, hop_count}
use cbgp.Route.{Peer, Route, origin_code, route_path_last_as}
use cbgp.Decision.{Router, MedType, deterministic, uint32_max, cluster_list_length}

abbrev or_else {ℓ} : {A : Type ℓ} → Option A → A → A
or_else none d = d
or_else (some a) d = a

-- A higher LOCAL-PREF is a lower key.
abbrev pub key_pref : Route → ℕ
key_pref r = uint32_max - r.attr.local_pref

abbrev pub key_length : Route → ℕ
key_length r = hop_count (segments_of r.attr.path_ref)

abbrev pub key_origin : Route → ℕ
key_origin r = origin_code r.attr.origin

abbrev pub key_med : Route → ℕ
key_med r = r.attr.med

-- 0 for a route learned over eBGP, 1 over iBGP.
abbrev pub key_session : Router → Route → ℕ
key_session router r = elim r.peer [ none ↦ 1 | some p ↦ if p.asn == router.asn then 1 else 0 ]

abbrev pub key_cost : Router → Route → ℕ
key_cost router r = or_else (router.igp_cost r.attr.next_hop) 0

abbrev peer_id : Option Peer → ℕ
peer_id none = 0
peer_id (some p) = p.router_id

abbrev pub key_router_id : Route → ℕ
key_router_id r = or_else r.attr.originator (peer_id r.peer)

abbrev pub key_cluster : Route → ℕ
key_cluster r = cluster_list_length r.attr.cluster_list

abbrev pub key_address : Route → ℕ
key_address r = elim r.peer [ none ↦ 0 | some p ↦ p.addr ]

-- The neighbor AS, for the deterministic MED rule.
abbrev pub as_of : Route → ℤ
as_of r = or_else (route_path_last_as r) minus_one

-- A route that every rule can read: it has a peer, a well-formed AS-Path of at most 255 hops, a
-- next-hop with an IGP route, values that fit their C types and at most 255 cluster-IDs; and, for
-- the deterministic MED rule, a known neighbor AS.
pub record IsComparable (med : MedType) (router : Router) (r : Route) : Type 0 where
  pub peer : Peer
  pub has_peer : r.peer ≡ some peer
  pub pref_fits : r.attr.local_pref ≤ uint32_max
  pub well : IsWellPath (segments_of r.attr.path_ref)
  pub length_fits : key_length r ≤ 255
  pub med_fits : r.attr.med ≤ uint32_max
  pub last_known : med ≡ deterministic → route_path_last_as r ≡ some (as_of r)
  pub cost : ℕ
  pub cost_known : router.igp_cost r.attr.next_hop ≡ some cost
  pub cost_fits : cost ≤ uint32_max
  pub router_id_fits : key_router_id r ≤ uint32_max
  pub cluster_fits : key_cluster r ≤ 255
  pub address_fits : peer.addr ≤ uint32_max

abbrev pub Comparable : MedType → Router → List Route → Type 0
Comparable med router rs = (r : Route) → In r rs → IsComparable med router r

-- Lexicographic comparison by a list of keys.
abbrev pub LexLe : List (Route → ℕ) → Route → Route → Type 0
LexLe [] r s = Unit
LexLe (k ∷ ks) r s = (k r < k s) ⊎ ((k r ≡ k s) × LexLe ks r s)

-- The keys of the rules, in the order of DP_RULES, for the always-compare MED rule.
abbrev pub rule_keys : Router → List (Route → ℕ)
rule_keys router =
    key_pref
    ∷ key_length
    ∷ key_origin
    ∷ key_med
    ∷ key_session router
    ∷ key_cost router
    ∷ key_router_id
    ∷ key_cluster
    ∷ key_address
    ∷ []
