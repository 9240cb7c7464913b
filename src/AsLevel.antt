-- ===== src/AsLevel.antt =====
-- AS-level topologies: src/bgp/aslevel/as-level.c, src/bgp/aslevel/filter.c and
-- src/bgp/aslevel/types.h. A domain stands for its pointer by its AS number: the array of the
-- domains is sorted by it and has every number once. A pointer to a domain that is not in the array
-- dangles, and `none` is a read through it, an abort or a failed assertion. The routers and the
-- sessions of an installed topology are left out.
pub mod Arrays
pub mod Policies
pub mod Tags
pub mod OneLink
pub mod ValleyFree
pub mod BackLinks
pub mod Removal
pub mod Consistent
pub mod Groups
pub mod Identified
pub mod Kept
pub mod Connected
use cbgp.Base.{
  ℕ, ◌+◌, ◌/◌, Bool, true, false, not, ◌&&◌, Option, none, some, List, [], ◌∷◌, length, ltb, leb,
  ◌==◌, if◌then◌else◌, ◌>>=◌, any, all, keep, get_elem?,
}
use cbgp.AsLevel.Arrays.{find_at, insert_at, remove_at, change_at}

-- The codes ASLEVEL_PEER_TYPE_*.
pub data PeerType : Type 0 where
  customer provider peer sibling unknown : PeerType

-- The codes ASLEVEL_SUCCESS and ASLEVEL_ERROR_* that the functions here return.
pub data Code : Type 0 where
  success invalid_asnum invalid_relation duplicate_link loop_link : Code
  disconnected inconsistent unknown_filter : Code

-- as_level_link_t.
pub record Link : Type 0 where
  pub neighbor : ℕ
  pub peer_type : PeerType

-- as_level_domain_t.
pub record Domain : Type 0 where
  pub asn : ℕ
  pub neighbors : List Link

-- as_level_topo_t. The cache has its ASLEVEL_TOPO_AS_CACHE_SIZE entries, the last one first.
pub record Topo : Type 0 where
  pub domains : List Domain
  pub newest : Option ℕ
  pub oldest : Option ℕ

abbrev pub asn_of : Domain → ℕ
asn_of d = d.asn

abbrev pub neighbor_of : Link → ℕ
neighbor_of l = l.neighbor

-- The domain behind a pointer.
abbrev pub find_domain : List Domain → ℕ → Option Domain
find_domain = find_at asn_of

abbrev pub find_link : List Link → ℕ → Option Link
find_link = find_at neighbor_of

abbrev pub peer_type_eq : PeerType → PeerType → Bool
peer_type_eq customer customer = true
peer_type_eq provider provider = true
peer_type_eq peer peer = true
peer_type_eq sibling sibling = true
peer_type_eq unknown unknown = true
peer_type_eq _ _ = false

abbrev pub is_valid : PeerType → Bool
is_valid unknown = false
is_valid _ = true

abbrev pub reverse_relation : PeerType → PeerType
reverse_relation customer = provider
reverse_relation provider = customer
reverse_relation peer = peer
reverse_relation sibling = sibling
reverse_relation unknown = unknown

-- The loops of aslevel_as_num_customers and aslevel_as_num_providers.
abbrev pub count_links : PeerType → List Link → ℕ
count_links t [] = 0
count_links t (l ∷ ls) = (if peer_type_eq l.peer_type t then 1 else 0) + count_links t ls

abbrev pub num_customers : Domain → ℕ
num_customers d = count_links customer d.neighbors

abbrev pub num_providers : Domain → ℕ
num_providers d = count_links provider d.neighbors

abbrev pub topo_num_nodes : Topo → ℕ
topo_num_nodes t = length t.domains

abbrev total_links : List Domain → ℕ
total_links [] = 0
total_links (d ∷ ds) = length d.neighbors + total_links ds

abbrev pub topo_num_edges : Topo → ℕ
topo_num_edges t = total_links t.domains / 2

abbrev pub cache_update : Topo → ℕ → Topo
cache_update t asn = record t { newest = some asn; oldest = t.newest }

abbrev pub cache_invalidate : Topo → Topo
cache_invalidate t = record t { newest = none; oldest = none }

-- The search from the end of the cache, up to the first empty place.
abbrev pub cache_lookup : Topo → ℕ → Bool
cache_lookup t asn = elim t.newest [
  | none ↦ false
  | some a ↦ if a == asn then true else elim t.oldest [ none ↦ false | some b ↦ b == asn ]
]

-- `none` is NULL: the domain exists.
unfoldable pub topo_add_as : Topo → ℕ → Option Topo
topo_add_as t asn = insert_at asn_of (record { asn = asn; neighbors = [] }) t.domains >>= λ ds.
    some (cache_update (record t { domains = ds }) asn)

-- The pointer found, if any, and the topology with its cache.
unfoldable pub topo_get_as : Topo → ℕ → Option ℕ × Topo
topo_get_as t asn = if cache_lookup t asn then (some asn, t) else elim (find_domain t.domains asn) [
  | none ↦ (none, t)
  | some d ↦ (some d.asn, cache_update t d.asn)
]

-- aslevel_as_add_link from one domain to the domain `asn`.
unfoldable pub as_add_link : Domain → ℕ → PeerType → Code × Domain
as_add_link d asn t =
    if not (is_valid t)
    then (invalid_relation, d)
    else (if d.asn == asn
        then (loop_link, d)
        else elim (insert_at neighbor_of (record { neighbor = asn; peer_type = t }) d.neighbors) [
          | none ↦ (duplicate_link, d)
          | some ls ↦ (success, record d { neighbors = ls })
        ])

abbrev pub as_get_link : Domain → ℕ → Option Link
as_get_link d asn = find_link d.neighbors asn

abbrev pub topo_get_top : Topo → List Domain
topo_get_top t = keep (λ d. num_providers d == 0) t.domains

-- The two loops of aslevel_topo_check_consistency.
abbrev pub link_consistent : List Domain → ℕ → Link → Option Bool
link_consistent ds asn l = find_domain ds l.neighbor >>= λ d. some (elim (as_get_link d asn) [
  | none ↦ false
  | some back ↦ peer_type_eq l.peer_type (reverse_relation back.peer_type)
])

abbrev pub links_consistent : List Domain → ℕ → List Link → Option Bool
links_consistent ds asn [] = some true
links_consistent ds asn (l ∷ ls) = link_consistent ds asn l >>= λ t. elim t [
  | false ↦ some false
  | true ↦ links_consistent ds asn ls
]

abbrev pub domains_consistent : List Domain → List Domain → Option Bool
domains_consistent ds [] = some true
domains_consistent ds (d ∷ rest) = links_consistent ds d.asn d.neighbors >>= λ t. elim t [
  | false ↦ some false
  | true ↦ domains_consistent ds rest
]

unfoldable pub topo_check_consistency : Topo → Option Code
topo_check_consistency t =
    domains_consistent t.domains t.domains >>= λ c. some (if c then success else inconsistent)

abbrev pub drop_link : ℕ → Domain → Domain
drop_link asn d = record d { neighbors = remove_at neighbor_of asn d.neighbors }

-- The loop of aslevel_topo_remove_as over the links of the domain `asn`, which do not change: by
-- aslevel_as_add_link none of them leads to the domain itself.
abbrev pub remove_back_links : ℕ → List Link → List Domain → Option (List Domain)
remove_back_links asn [] ds = some ds
remove_back_links asn (l ∷ links) ds = find_domain ds l.neighbor >>= λ d.
    elim (find_link d.neighbors asn) [
      | none ↦ none
      | some _ ↦ remove_back_links asn links (change_at asn_of l.neighbor (drop_link asn) ds)
    ]

unfoldable pub topo_remove_as : Topo → ℕ → Option (Code × Topo)
topo_remove_as t asn = elim (find_domain t.domains asn) [
  | none ↦ some (invalid_asnum, t)
  | some d ↦ remove_back_links asn d.neighbors t.domains >>= λ ds.
      some (success, cache_invalidate (record t { domains = remove_at asn_of asn ds }))
]
