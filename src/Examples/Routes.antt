-- ===== src/Examples/Routes.antt =====
-- The decision process on two routes, learned from AS 2 and AS 3 by a router of AS 1.
use cbgp.Base.{
  ℕ, ◌+◌, ◌≤◌, ◌<◌, ◌≡◌, ◌↔◌, refl, true, false, none, some, List, [], ◌∷◌, map, arith, In, inl,
  inr, replicate,
}
use cbgp.Attr.Segment.{sequence}
use cbgp.Attr.Path.{AsPath}
use cbgp.Route.{Peer, Attributes, Flags, Route, igp, route_path_last_as, route_path_length}
use cbgp.Decision.{
  Router, MedType, deterministic, always_compare, decision_process_run, dp_rule_lowest_med,
  dp_rule_shortest_path, marked,
}
use cbgp.Decision.Keys.{
  as_of, IsComparable, Comparable, LexLe, rule_keys, key_address, key_length, key_cluster,
}
use cbgp.Decision.Choice.{Distinct, refine}
use cbgp.Decision.Table.{clean, choices}
use cbgp.Decision.Rules.Bounds.{shortest_path_none}
use cbgp.Decision.Med.Deterministic.{deterministic_med_exact}
use cbgp.Decision.Run.{decision_process_run_lem, decision_process_run_best}

abbrev pub router : Router
router = record {
  asn = 1;
  rid = 1;
  cluster_id = 1;
  reflector = false;
  igp_cost = λ next_hop. some (next_hop + 1);
}

abbrev pub no_flags : Flags
no_flags = record {
  feasible = true;
  eligible = true;
  best = false;
  advertised = false;
  dp_igp = false;
  internal = false;
  rr_client = false;
}

abbrev pub attributes : ℕ → AsPath → Attributes
attributes med p = record {
  next_hop = 4;
  origin = igp;
  local_pref = 100;
  med = med;
  path_ref = some p;
  comms = none;
  ecomms = none;
  originator = none;
  cluster_list = none;
}

abbrev pub neighbor : ℕ → ℕ → Peer
neighbor asn n = record {
  asn = asn;
  addr = n;
  router_id = n;
  next_hop = 0;
  rr_client = false;
  next_hop_self = false;
}

-- A route of the neighbor of a given AS number.
abbrev learned : ℕ → ℕ → AsPath → Route
learned asn med p = record {
  prefix = record { network = 0; mask = 8 };
  peer = some (neighbor asn asn);
  attr = attributes med p;
  flags = no_flags;
}

abbrev pub route_a : Route
route_a = learned 2 10 (record { type = sequence; asns = 9 ∷ 2 ∷ [] } ∷ [])

abbrev pub route_b : Route
route_b = learned 3 5 (record { type = sequence; asns = 9 ∷ 3 ∷ [] } ∷ [])

learned-IsComparable :
    (med : MedType) (asn m : ℕ)
    → asn ≤ 65535
    → m ≤ 65535
    → IsComparable med router (learned asn m (record { type = sequence; asns = 9 ∷ asn ∷ [] } ∷ []))
unfolding route_path_last_as
learned-IsComparable med asn m h k = record {
  peer = neighbor asn asn;
  has_peer = refl;
  pref_fits = omega arith;
  well = omega arith;
  length_fits = omega arith;
  med_fits = omega arith;
  last_known = λ _. refl;
  cost = 5;
  cost_known = refl;
  cost_fits = omega arith;
  router_id_fits = omega arith;
  cluster_fits = omega arith;
  address_fits = omega arith;
}

pub both-Comparable : (med : MedType) → Comparable med router (route_a ∷ route_b ∷ [])
both-Comparable med r (inl e) = rw e (learned-IsComparable med 2 10 (omega arith) (omega arith))
both-Comparable med r (inr (inl e)) =
    rw e (learned-IsComparable med 3 5 (omega arith) (omega arith))
both-Comparable med r (inr (inr i)) = absurd i

both-Distinct : Distinct key_address (route_a ∷ route_b ∷ [])
both-Distinct = omega arith

decision_process_run_best_example :
    (best : Route) × (rank : ℕ) × (decision_process_run always_compare router
        (route_a ∷ route_b ∷ [])
      ≡ some (best ∷ [], rank))
    × In (clean best) (map clean (route_a ∷ route_b ∷ []))
    × ((s : Route) → In s (route_a ∷ route_b ∷ []) → LexLe (rule_keys router) best s)
decision_process_run_best_example =
    decision_process_run_best router route_a (route_b ∷ []) (both-Comparable always_compare)
      both-Distinct

decision_process_run_lem_example :
    (best : Route) × (rank : ℕ) × (decision_process_run deterministic router
        (route_a ∷ route_b ∷ [])
      ≡ some (best ∷ [], rank))
    × In (clean best) (map clean (route_a ∷ route_b ∷ []))
    × (refine (choices deterministic router) (map clean (route_a ∷ route_b ∷ [])) ≡ clean best ∷ [])
decision_process_run_lem_example =
    decision_process_run_lem deterministic router route_a (route_b ∷ [])
      (both-Comparable deterministic) both-Distinct

-- The two MED options select different routes here: the MEDs of different neighbors are compared by
-- the one (rule 4), and only the router-ID decides by the other (rule 7).
always_compare_runs :
    decision_process_run always_compare router (route_a ∷ route_b ∷ []) ≡ some (route_b ∷ [], 4)
unfolding decision_process_run
always_compare_runs = refl

deterministic_runs :
    decision_process_run deterministic router (route_a ∷ route_b ∷ [])
    ≡ some (marked route_a ∷ [], 7)
unfolding decision_process_run route_path_last_as
deterministic_runs = refl

deterministic_med_exact_example :
    (out : List Route) × (dp_rule_lowest_med deterministic router (route_a ∷ route_b ∷ [])
      ≡ some out)
    × ((r : Route)
        → In r out ↔ (
            In r (route_a ∷ route_b ∷ [])
            × ((s : Route)
                → In s (route_a ∷ route_b ∷ [])
                → as_of s ≡ as_of r
                → r.attr.med ≤ s.attr.med)))
deterministic_med_exact_example =
    deterministic_med_exact as_of router (route_a ∷ route_b ∷ [])
      (λ r i. (both-Comparable deterministic r i).last_known refl)

-- 200 and 100 hops, in two segments.
abbrev far_route : Route
far_route = learned 2 0 (
    record { type = sequence; asns = replicate 200 9 }
    ∷ record { type = sequence; asns = replicate 100 2 }
    ∷ [])

far-known : (r : Route) → In r (far_route ∷ []) → route_path_length r ≡ some (key_length r)
unfolding route_path_length
far-known r (inl e) = rw e refl
far-known r (inr i) = absurd i

far-long : (r : Route) → In r (far_route ∷ []) → 255 < key_length r
far-long r (inl e) = rw e (omega arith)
far-long r (inr i) = absurd i

shortest_path_none_example : dp_rule_shortest_path router (far_route ∷ []) ≡ some []
shortest_path_none_example = shortest_path_none router (far_route ∷ []) far-known far-long

-- A route reflected through 256 clusters.
abbrev reflected_route : Route
reflected_route = record {
  prefix = record { network = 0; mask = 8 };
  peer = some (neighbor 1 6);
  attr = record {
    next_hop = 4;
    origin = igp;
    local_pref = 100;
    med = 0;
    path_ref = none;
    comms = none;
    ecomms = none;
    originator = none;
    cluster_list = some (replicate 256 1);
  };
  flags = no_flags;
}

reflected-long : (r : Route) → In r (reflected_route ∷ []) → 255 < key_cluster r
reflected-long r (inl e) = rw e (omega arith)
reflected-long r (inr i) = absurd i
