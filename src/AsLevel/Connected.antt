-- ===== src/AsLevel/Connected.antt =====
-- The search of aslevel_topo_check_connectedness, src/bgp/aslevel/as-level.c. A context of its
-- stack, a domain and an index, is the list of the links of the domain from the index on; the AS
-- set of the visited domains is the list of their numbers. `fits` tells whether stack_push of
-- libgds takes an item at the given depth.
pub mod Measure
pub mod Reached
pub mod Answer
use cbgp.Base.{
  ℕ, zero, suc, ◌+◌, Bool, true, false, Option, none, some, List, [], ◌∷◌, length, all,
  if◌then◌else◌, ◌>>=◌,
}
use cbgp.AsLevel.{Code, success, disconnected, Link, Domain, Topo, find_domain}
use cbgp.AsLevel.Groups.{in_set}

-- Each domain is a context once, and takes a round for each link and one to be popped.
abbrev pub search_rounds : List Domain → ℕ
search_rounds [] = 0
search_rounds (d ∷ ds) = suc (length d.neighbors) + search_rounds ds

module _ (fits : ℕ → Bool) where
  -- The assertion on the push of a context.
  abbrev pub push_context : List (List Link) → List Link → Option (List (List Link))
  push_context stack links = if fits (length stack) then some (links ∷ stack) else none

  -- The while loop, with fuel for its rounds. The result is the set of the visited domains.
  unfoldable pub search : ℕ → List Domain → List (List Link) → List ℕ → Option (List ℕ)
  search fuel ds [] visited = some visited
  search zero ds (context ∷ stack) visited = none
  search (suc fuel) ds ([] ∷ stack) visited = search fuel ds stack visited
  search (suc fuel) ds ((l ∷ links) ∷ stack) visited = elim (in_set visited l.neighbor) [
    | true ↦ search fuel ds (links ∷ stack) visited
    | false ↦ find_domain ds l.neighbor >>= λ d.
        push_context (links ∷ stack) d.neighbors >>= λ pushed.
        search fuel ds pushed (l.neighbor ∷ visited)
  ]

  abbrev pub every_visited : List Domain → List ℕ → Code
  every_visited ds visited = if all (λ d. in_set visited d.asn) ds then success else disconnected

  -- The code of the first push is not looked at.
  unfoldable pub topo_check_connectedness : Topo → Option Code
  unfolding search
  topo_check_connectedness t = elim t.domains [
    | [] ↦ some success
    | d ∷ rest ↦
        search (suc (search_rounds (d ∷ rest))) (d ∷ rest) (if fits 0 then d.neighbors ∷ [] else [])
          (d.asn ∷ [])
        >>= λ visited. some (every_visited (d ∷ rest) visited)
  ]
