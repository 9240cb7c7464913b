-- ===== src/Route/Compare.antt =====
-- Comparison of routes: bgp_attr_cmp (src/bgp/attr.c), route_equals (src/bgp/route.c), and
-- cluster_list_equals, cluster_list_contains and originator_equals (src/bgp/route_reflector.c). Two
-- null pointers are equal; no other two pointers are, except where `alias` says so.
use Prim.Native.Nat.{Ordering}
use cbgp.Base.{
  ℕ, ◌≡◌, ◌↔◌, refl, ap, arith, Bool, true, false, not, Option, none, some, List, [], ◌∷◌, length,
  ◌==◌, if◌then◌else◌, ◌>>=◌, >>=-some,
}
use cbgp.Net.Prefix.{ip_prefix_cmp}
use cbgp.Attr.Path.{AsPath, path_equals}
use cbgp.Attr.Comm.{comms_equals}
use cbgp.Attr.Comm.Laws.{comms_equals_iff}
use cbgp.Route.{Attributes, Route, origin_code}

abbrev pub cluster_loop : List ℕ → List ℕ → Bool
cluster_loop (a ∷ xs) (b ∷ ys) = if a == b then cluster_loop xs ys else false
cluster_loop _ _ = true

unfoldable pub cluster_list_equals : Option (List ℕ) → Option (List ℕ) → Bool
cluster_list_equals none none = true
cluster_list_equals (some c) (some d) = if length c == length d then cluster_loop c d else false
cluster_list_equals _ _ = false

unfoldable pub originator_equals : Option ℕ → Option ℕ → Bool
originator_equals none none = true
originator_equals (some a) (some b) = a == b
originator_equals _ _ = false

abbrev pub both_null : Option AsPath → Option AsPath → Bool
both_null none none = true
both_null _ _ = false

-- The tests behind that of the AS-Paths. `ecomms_equal` is the result of ecomm_equals.
abbrev rest_equal : Bool → Attributes → Attributes → Bool
rest_equal ecomms_equal a b =
    if not (origin_code a.origin == origin_code b.origin)
    then false
    else if not (a.med == b.med)
    then false
    else if not (comms_equals false a.comms b.comms)
    then false
    else if not ecomms_equal
    then false
    else if not (originator_equals a.originator b.originator)
    then false
    else cluster_list_equals a.cluster_list b.cluster_list

unfoldable pub attr_cmp : Bool → Bool → Attributes → Attributes → Option Bool
unfolding path_equals comms_equals cluster_list_equals originator_equals
attr_cmp alias ecomms_equal a b =
    if alias
    then some true
    else if not (a.next_hop == b.next_hop)
    then some false
    else if not (a.local_pref == b.local_pref)
    then some false
    else path_equals (both_null a.path_ref b.path_ref) a.path_ref b.path_ref >>= λ e.
        some (if e then rest_equal ecomms_equal a b else false)

abbrev is_eq : Ordering → Bool
is_eq Ordering.eq = true
is_eq _ = false

unfoldable pub route_equals : Bool → Bool → Bool → Route → Route → Option Bool
unfolding ip_prefix_cmp attr_cmp
route_equals alias attr_alias ecomms_equal r s =
    if alias
    then some true
    else ip_prefix_cmp false r.prefix s.prefix >>= λ c.
        if is_eq c then attr_cmp attr_alias ecomms_equal r.attr s.attr else some false

cluster_loop_iff : (c d : List ℕ) → length c ≡ length d → (cluster_loop c d ≡ true) ↔ (c ≡ d)
cluster_loop_iff [] [] h = ground arith
cluster_loop_iff [] (b ∷ d) h = absurd (omega arith)
cluster_loop_iff (a ∷ c) [] h = absurd (omega arith)
cluster_loop_iff (a ∷ c) (b ∷ d) h = ground (arith, cluster_loop_iff c d)

-- Two Cluster-ID-Lists are equal for cluster_list_equals exactly if both are NULL or both hold the
-- same cluster-IDs in the same order.
pub cluster_list_equals_iff : (c d : Option (List ℕ)) → (cluster_list_equals c d ≡ true) ↔ (c ≡ d)
unfolding cluster_list_equals
cluster_list_equals_iff none none = (λ _. refl, λ _. refl)
cluster_list_equals_iff none (some d) = (λ e. absurd (cc), λ e. absurd (cc))
cluster_list_equals_iff (some c) none = (λ e. absurd (cc), λ e. absurd (cc))
cluster_list_equals_iff (some c) (some d) = (
  λ e. ap some ((cluster_loop_iff c d (ground arith)).0 (ground arith)),
  λ e.
      let q : c ≡ d = cc (e) in
      ground (arith, ap length q, (cluster_loop_iff c d (ap length q)).1 q),
)

originator_equals_iff : (o p : Option ℕ) → (originator_equals o p ≡ true) ↔ (o ≡ p)
unfolding originator_equals
originator_equals_iff none none = (λ _. refl, λ _. refl)
originator_equals_iff none (some b) = (λ e. absurd (cc), λ e. absurd (cc))
originator_equals_iff (some a) none = (λ e. absurd (cc), λ e. absurd (cc))
originator_equals_iff (some a) (some b) = ground arith

-- Attribute sets that bgp_attr_cmp calls equal, seen through different pointers, agree in all their
-- attributes: as numbers, NULL or not, and value by value in order; AS-Paths as path_equals sees them.
pub attr_cmp_sound :
    (ecomms_equal : Bool) (a b : Attributes)
    → attr_cmp false ecomms_equal a b ≡ some true
    → (a.next_hop ≡ b.next_hop)
      × (a.local_pref ≡ b.local_pref)
      × (path_equals (both_null a.path_ref b.path_ref) a.path_ref b.path_ref ≡ some true)
      × (origin_code a.origin ≡ origin_code b.origin)
      × (a.med ≡ b.med)
      × (a.comms ≡ b.comms)
      × (a.originator ≡ b.originator)
      × (a.cluster_list ≡ b.cluster_list)
unfolding attr_cmp
attr_cmp_sound ecomms_equal a b e = ground (
  arith,
  e,
  comms_equals_iff a.comms b.comms,
  originator_equals_iff a.originator b.originator,
  cluster_list_equals_iff a.cluster_list b.cluster_list,
)

pub route_equals-attr_cmp :
    (ecomms_equal : Bool) (r s : Route)
    → route_equals false false ecomms_equal r s ≡ some true
    → attr_cmp false ecomms_equal r.attr s.attr ≡ some true
unfolding route_equals
route_equals-attr_cmp ecomms_equal r s e =
    let (c, p, q) = >>=-some (ip_prefix_cmp false r.prefix s.prefix) _ true e in go (is_eq c) q
  where
    go :
        (u : Bool)
        → (if u then attr_cmp false ecomms_equal r.attr s.attr else some false) ≡ some true
        → attr_cmp false ecomms_equal r.attr s.attr ≡ some true
    go true e = e
    go false e = absurd (cc)
