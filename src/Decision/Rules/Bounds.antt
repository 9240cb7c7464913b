-- ===== src/Decision/Rules/Bounds.antt =====
-- The uint8 variables of dp_rule_shortest_path and dp_rule_shortest_cluster_list
-- (src/bgp/dp_rules.c), beyond 255.
use cbgp.Base.{◌%◌, ◌<◌, ◌≡◌, refl, ap, ◌∙◌, false, some, List, [], arith, In, leb, keep-none}
use cbgp.Route.{Route, route_path_length}
use cbgp.Decision.{Router, dp_rule_shortest_path, dp_rule_shortest_cluster_list, lowest}
use cbgp.Decision.Lowest.{least, least-le_init, lowest-nothing, lowest_loop_lem, discard_above_lem}
use cbgp.Decision.Keys.{key_length, key_cluster}

-- If every AS-Path is longer than 255 hops, the rule for the shortest AS-Path discards every route.
pub shortest_path_none :
    (router : Router) (rs : List Route)
    → ((r : Route) → In r rs → route_path_length r ≡ some (key_length r))
    → ((r : Route) → In r rs → 255 < key_length r)
    → dp_rule_shortest_path router rs ≡ some []
unfolding dp_rule_shortest_path
shortest_path_none router rs known long =
    lowest-nothing route_path_length key_length 255 rs known long

-- If every Cluster-ID-List is longer than 255, the rule for the shortest one discards every route.
pub shortest_cluster_list_none :
    (router : Router) (rs : List Route)
    → ((r : Route) → In r rs → 255 < key_cluster r)
    → dp_rule_shortest_cluster_list router rs ≡ some []
unfolding dp_rule_shortest_cluster_list lowest
shortest_cluster_list_none router rs long =
    rw
      (lowest_loop_lem (λ r. some (key_cluster r % 256)) (λ r. key_cluster r % 256) 255 rs
        (λ r i. refl))
      (discard_above_lem (λ r. some (key_cluster r)) key_cluster
          (least (λ r. key_cluster r % 256) 255 rs) rs (λ r i. refl)
        ∙ ap some (keep-none _ rs above))
  where
    above :
        (r : Route)
        → In r rs
        → leb (key_cluster r) (least (λ r. key_cluster r % 256) 255 rs) ≡ false
    above r i = ground (arith, long r i, least-le_init (λ (r : Route). key_cluster r % 256) 255 rs)
