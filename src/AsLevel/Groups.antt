-- ===== src/AsLevel/Groups.antt =====
-- The removal of a group of domains, aslevel_filter_topo of src/bgp/aslevel/filter.c. An AS set is
-- the list of its numbers; the bits of AS_SET_PUT and IS_IN_AS_SET are those of a number below MAX_AS.
use cbgp.Base.{
  ℕ, Bool, false, not, ◌&&◌, Option, none, some, List, [], ◌∷◌, map, keep, any, length, ltb, ◌==◌,
  if◌then◌else◌, ◌>>=◌,
}
use cbgp.AsLevel.{
  peer, Code, success, unknown_filter, Link, Domain, Topo, asn_of, neighbor_of, find_domain,
  peer_type_eq, num_customers, num_providers,
}
use cbgp.AsLevel.Arrays.{change_at}

-- aslevel_filter_t, with ASLEVEL_FILTER_*; `other` is any other value.
pub data Group : Type 0 where
  stubs single_homed_stubs peer_to_peer keep_top other : Group

abbrev pub in_set : List ℕ → ℕ → Bool
in_set set a = any (λ b. b == a) set

-- The inner loop for peer-to-peer links. It ends at a neighbor without providers.
unfoldable pub without_peers : List Domain → List Link → Option (List Link)
without_peers ds [] = some []
without_peers ds (l ∷ ls) =
    let rest = without_peers ds ls in
    find_domain ds l.neighbor >>= λ d.
    if num_providers d == 0
    then some (l ∷ ls)
    else (if peer_type_eq l.peer_type peer then rest else (rest >>= λ r. some (l ∷ r)))

-- The switch: whether the domain is put in the set, and the domain afterwards. The return of the
-- default case is in topo_filter.
unfoldable pub mark : Group → List Domain → Domain → Option (Bool × Domain)
mark stubs ds d = some (num_customers d == 0, d)
mark single_homed_stubs ds d = some (num_customers d == 0 && num_providers d == 1, d)
mark peer_to_peer ds d =
    if num_providers d == 0
    then some (false, d)
    else (without_peers ds d.neighbors >>= λ ls. some (length ls == 0, record d { neighbors = ls }))
mark keep_top ds d = some (ltb 0 (num_providers d), d)
mark other ds d = none

-- The loop that identifies the domains, over their numbers: the set, and the domains afterwards.
unfoldable pub identify : Group → List ℕ → List Domain → List ℕ → Option (List ℕ × List Domain)
identify g [] ds set = some (set, ds)
identify g (a ∷ rest) ds set = find_domain ds a >>= λ d. mark g ds d >>= λ q.
    identify g rest (change_at asn_of a (λ _. q.1) ds) (if q.0 then a ∷ set else set)

-- The loops that remove links and domains.
abbrev pub without_links_to : List ℕ → Domain → Domain
without_links_to set d = record d {
  neighbors = keep (λ l. not (in_set set (neighbor_of l))) d.neighbors;
}

abbrev pub without_set : List ℕ → List Domain → List Domain
without_set set ds = keep (λ d. not (in_set set (asn_of d))) (map (without_links_to set) ds)

abbrev pub numbers : List Domain → List ℕ
numbers ds = map asn_of ds

-- The cache is left as it is.
unfoldable pub filtered : Group → Topo → Option (Code × Topo)
filtered g t = identify g (numbers t.domains) t.domains [] >>= λ q.
    some (success, record t { domains = without_set q.0 q.1 })

unfoldable pub topo_filter : Group → Topo → Option (Code × Topo)
topo_filter other t = elim t.domains [ [] ↦ some (success, t) | _ ∷ _ ↦ some (unknown_filter, t) ]
topo_filter g t = filtered g t
