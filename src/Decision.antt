-- ===== src/Decision.antt =====
-- The decision process: the rules of src/bgp/dp_rules.c and the loop over them in src/bgp/as.c. A
-- rule takes a list of routes and returns those it leaves; `none` is abort() or a read through NULL.
-- A flag that a rule sets on a route that it then discards is not kept: the next decision process
-- clears it before it is read.
pub mod Select
pub mod Lowest
pub mod Med
pub mod Keys
pub mod Rules
pub mod Choice
pub mod Table
pub mod Run
use cbgp.Base.{
  ℕ, zero, suc, ◌+◌, ◌-◌, ◌%◌, ◌^◌, ◌≡◌, Bool, true, false, Option, none, some, List, [], ◌∷◌,
  length, map, ltb, leb, ◌==◌, if◌then◌else◌, ◌>>=◌,
}
use cbgp.Base.Int.{ℤ, eqb_ℤ}
use cbgp.Route.{
  Peer, Attributes, Flags, Route, origin_code, route_path_length, route_path_last_as,
  route_peer_get, effective_router_id,
}

-- The router. `igp_cost` is what rt_find_best finds in its routing table: the metric of the route
-- towards an address.
pub record Router : Type 0 where
  pub asn : ℕ
  pub rid : ℕ
  pub cluster_id : ℕ
  pub reflector : Bool
  pub igp_cost : ℕ → Option ℕ

pub data MedType : Type 0 where
  deterministic always_compare : MedType

abbrev pub uint32_max : ℕ
uint32_max = 2 ^ 32 - 1

-- The first loop of a rule: the lowest value of a route, or the initial one.
pub lowest_loop : (Route → Option ℕ) → ℕ → List Route → Option ℕ
lowest_loop value best [] = some best
lowest_loop value best (r ∷ rs) =
    value r >>= λ v. lowest_loop value (if ltb v best then v else best) rs

-- The second loop: routes of a higher value are removed.
pub discard_above : (Route → Option ℕ) → ℕ → List Route → Option (List Route)
discard_above value limit [] = some []
discard_above value limit (r ∷ rs) = value r >>= λ v.
    discard_above value limit rs >>= λ rest. some (if ltb limit v then rest else r ∷ rest)

unfoldable pub lowest :
    (Route → Option ℕ) → (Route → Option ℕ) → ℕ → List Route → Option (List Route)
unfolding lowest_loop discard_above
lowest value value' init rs = lowest_loop value init rs >>= λ best. discard_above value' best rs

highest_pref_loop : ℕ → List Route → ℕ
highest_pref_loop best [] = best
highest_pref_loop best (r ∷ rs) =
    highest_pref_loop (if ltb best r.attr.local_pref then r.attr.local_pref else best) rs

discard_below_pref : ℕ → List Route → List Route
discard_below_pref limit [] = []
discard_below_pref limit (r ∷ rs) =
    let rest = discard_below_pref limit rs in if ltb r.attr.local_pref limit then rest else r ∷ rest

unfoldable pub dp_rule_highest_pref : Router → List Route → Option (List Route)
unfolding highest_pref_loop discard_below_pref
dp_rule_highest_pref router rs = some (discard_below_pref (highest_pref_loop 0 rs) rs)

-- The uint8 variable for the shortest length starts at 255.
unfoldable pub dp_rule_shortest_path : Router → List Route → Option (List Route)
unfolding lowest route_path_length
dp_rule_shortest_path router = lowest route_path_length route_path_length 255

unfoldable pub dp_rule_lowest_origin : Router → List Route → Option (List Route)
unfolding lowest
dp_rule_lowest_origin router =
    lowest (λ r. some (origin_code r.attr.origin)) (λ r. some (origin_code r.attr.origin)) 2

abbrev pub entry :
    Option Route → Option (List (Option Route) × Bool) → Option (List (Option Route) × Bool)
entry e rest = rest >>= λ q. some (e ∷ q.0, q.1)

-- The inner loop of the deterministic MED rule: `route`, of the neighbor AS `last`, against the
-- entries behind it. Returns those entries, and whether the entry of `route` is kept.
unfoldable pub med_scan : Route → ℤ → List (Option Route) → Option (List (Option Route) × Bool)
med_scan route last [] = some ([], true)
med_scan route last (none ∷ es) = entry none (med_scan route last es)
med_scan route last (some route2 ∷ es) = route_path_last_as route2 >>= λ last2.
    let rest = med_scan route last es in
    if eqb_ℤ last last2
    then if ltb route.attr.med route2.attr.med
      then entry none rest
      else if ltb route2.attr.med route.attr.med
      then some (some route2 ∷ es, false)
      else entry (some route2) rest
    else entry (some route2) rest

-- The outer loop, on as many rounds as there are entries left.
unfoldable pub med_loop : ℕ → List (Option Route) → Option (List (Option Route))
unfolding med_scan
med_loop zero es = some es
med_loop (suc rounds) [] = some []
med_loop (suc rounds) (none ∷ es) = med_loop rounds es >>= λ es'. some (none ∷ es')
med_loop (suc rounds) (some r ∷ es) = route_path_last_as r >>= λ last. med_scan r last es >>= λ q.
    med_loop rounds q.0 >>= λ es'. some ((if q.1 then some r else none) ∷ es')

-- The last loop: the NULL entries are removed.
abbrev pub compact : List (Option Route) → List Route
compact [] = []
compact (none ∷ es) = compact es
compact (some r ∷ es) = r ∷ compact es

unfoldable pub dp_rule_lowest_med : MedType → Router → List Route → Option (List Route)
unfolding lowest med_loop
dp_rule_lowest_med always_compare router rs =
    lowest (λ r. some r.attr.med) (λ r. some r.attr.med) uint32_max rs
dp_rule_lowest_med deterministic router rs =
    med_loop (length rs) (map some rs) >>= λ es. some (compact es)

any_ebgp : Router → List Route → Option Bool
any_ebgp router [] = some false
any_ebgp router (r ∷ rs) = route_peer_get r >>= λ p.
    let rest = any_ebgp router rs in if p.asn == router.asn then rest else some true

discard_ibgp : Router → List Route → Option (List Route)
discard_ibgp router [] = some []
discard_ibgp router (r ∷ rs) = route_peer_get r >>= λ p.
    discard_ibgp router rs >>= λ rest. some (if p.asn == router.asn then rest else r ∷ rest)

unfoldable pub dp_rule_ebgp_over_ibgp : Router → List Route → Option (List Route)
unfolding any_ebgp discard_ibgp
dp_rule_ebgp_over_ibgp router rs =
    any_ebgp router rs >>= λ ebgp. if ebgp then discard_ibgp router rs else some rs

-- route_flag_set(route, ROUTE_FLAG_DP_IGP, 1)
abbrev pub marked : Route → Route
marked r = record r { flags = record (r.flags) { dp_igp = true } }

-- The first loop marks every route as it computes the lowest cost; a missing route aborts.
unfoldable pub dp_rule_nearest_next_hop : Router → List Route → Option (List Route)
unfolding lowest
dp_rule_nearest_next_hop router rs =
    lowest (λ r. router.igp_cost r.attr.next_hop) (λ r. router.igp_cost r.attr.next_hop) uint32_max
      (map marked rs)

unfoldable pub dp_rule_lowest_router_id : Router → List Route → Option (List Route)
unfolding lowest effective_router_id
dp_rule_lowest_router_id router = lowest effective_router_id effective_router_id uint32_max

abbrev pub cluster_list_length : Option (List ℕ) → ℕ
cluster_list_length none = 0
cluster_list_length (some l) = length l

-- The first loop holds the length in a uint8, the second does not.
unfoldable pub dp_rule_shortest_cluster_list : Router → List Route → Option (List Route)
unfolding lowest
dp_rule_shortest_cluster_list router =
    lowest (λ r. some (cluster_list_length r.attr.cluster_list % 256))
      (λ r. some (cluster_list_length r.attr.cluster_list)) 255

abbrev pub neighbor_address : Route → Option ℕ
neighbor_address r = route_peer_get r >>= λ p. some p.addr

unfoldable pub dp_rule_lowest_neighbor_address : Router → List Route → Option (List Route)
unfolding lowest
dp_rule_lowest_neighbor_address router = lowest neighbor_address neighbor_address uint32_max

-- DP_RULES
abbrev pub dp_rules : MedType → List (Router → List Route → Option (List Route))
dp_rules med =
    dp_rule_highest_pref
    ∷ dp_rule_shortest_path
    ∷ dp_rule_lowest_origin
    ∷ dp_rule_lowest_med med
    ∷ dp_rule_ebgp_over_ibgp
    ∷ dp_rule_nearest_next_hop
    ∷ dp_rule_lowest_router_id
    ∷ dp_rule_shortest_cluster_list
    ∷ dp_rule_lowest_neighbor_address
    ∷ []

unfoldable pub run_rules :
    List (Router → List Route → Option (List Route))
    → Router
    → List Route
    → ℕ
    → Option (List Route × ℕ)
run_rules [] router rs index = some (rs, index)
run_rules (rule ∷ rules) router rs index = elim (leb (length rs) 1) [
  | true ↦ some (rs, index)
  | false ↦ rule router rs >>= λ rs'. run_rules rules router rs' (index + 1)
]

-- _bgp_router_decision_process_run: the routes left, at most one, and the number of the last rule
-- that was applied. More than one route left is a crash: DP_RULES has room for 11 rules, its last two
-- are null in the default build, and the loop calls the first of them before it reaches abort.
unfoldable pub decision_process_run : MedType → Router → List Route → Option (List Route × ℕ)
unfolding run_rules dp_rule_highest_pref dp_rule_shortest_path dp_rule_lowest_origin
    dp_rule_lowest_med dp_rule_ebgp_over_ibgp dp_rule_nearest_next_hop dp_rule_lowest_router_id
    dp_rule_shortest_cluster_list dp_rule_lowest_neighbor_address
decision_process_run med router rs =
    run_rules (dp_rules med) router rs 0 >>= λ q. if ltb 1 (length q.0) then none else some q
