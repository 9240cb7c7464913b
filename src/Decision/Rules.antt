-- ===== src/Decision/Rules.antt =====
-- Each rule of src/bgp/dp_rules.c leaves the routes of the lowest key, and only those.
pub mod Session
pub mod Bounds
use cbgp.Base.{
  ℕ, ◌+◌, ◌-◌, ◌%◌, ◌≤◌, ◌<◌, ◌≡◌, ◌≢◌, refl, sym, ap, ◌∙◌, Bool, true, false, Option, none, some,
  List, [], ◌∷◌, map, arith, In, keep, any, ltb, leb, le→leb, leb→le, ◌==◌, if◌then◌else◌, inl, inr,
  Bool-cases, map-In, keep_cong, keep-every, all_intro, all-In, any-In, any_intro, Bool_of_iff,
  ◌>>=◌,
}
use cbgp.Attr.Path.{AsPath, path_length, segments_of}
use cbgp.Attr.Path.Length.{IsWellPath, hop_count, path_length_lem, IsWellPath-IsPlain}
use cbgp.Route.{Route, origin_code, igp, egp, incomplete, route_path_length, effective_router_id}
use cbgp.Decision.{
  Router, MedType, always_compare, uint32_max, marked, cluster_list_length, neighbor_address,
  highest_pref_loop, discard_below_pref, dp_rule_highest_pref, dp_rule_shortest_path,
  dp_rule_lowest_origin, dp_rule_lowest_med, any_ebgp, discard_ibgp, dp_rule_ebgp_over_ibgp,
  dp_rule_nearest_next_hop, dp_rule_lowest_router_id, dp_rule_shortest_cluster_list,
  dp_rule_lowest_neighbor_address,
}
use cbgp.Decision.Select.{minimal, is_lowest}
use cbgp.Decision.Lowest.{least, least-le_init, keep-least, lowest-minimal}
use cbgp.Decision.Keys.{
  key_pref, key_length, key_origin, key_med, key_session, key_cost, key_router_id, key_cluster,
  key_address, IsComparable, Comparable,
}

highest_pref_loop_lem :
    (best : ℕ) (rs : List Route)
    → best ≤ uint32_max
    → ((r : Route) → In r rs → r.attr.local_pref ≤ uint32_max)
    → uint32_max - highest_pref_loop best rs ≡ least key_pref (uint32_max - best) rs
unfolding highest_pref_loop
highest_pref_loop_lem best [] b h = refl
highest_pref_loop_lem best (r ∷ rs) b h = elim (Bool-cases (ltb best r.attr.local_pref)) [
  | inl e ↦
      rw (e, lower e)
        (highest_pref_loop_lem r.attr.local_pref rs (h r (inl refl)) (λ s i. h s (inr i)))
  | inr e ↦ rw (e, not_lower e) (highest_pref_loop_lem best rs b (λ s i. h s (inr i)))
]
  where
    lower : ltb best r.attr.local_pref ≡ true → ltb (key_pref r) (uint32_max - best) ≡ true
    lower e = ground (arith, h r (inl refl))

    not_lower : ltb best r.attr.local_pref ≡ false → ltb (key_pref r) (uint32_max - best) ≡ false
    not_lower e = ground (arith, h r (inl refl))

discard_below_pref_lem :
    (limit : ℕ) (rs : List Route)
    → limit ≤ uint32_max
    → ((r : Route) → In r rs → r.attr.local_pref ≤ uint32_max)
    → discard_below_pref limit rs ≡ keep (λ r. leb (key_pref r) (uint32_max - limit)) rs
unfolding discard_below_pref
discard_below_pref_lem limit [] b h = refl
discard_below_pref_lem limit (r ∷ rs) b h =
    rw (discard_below_pref_lem limit rs b (λ s i. h s (inr i)))
      (elim (Bool-cases (ltb r.attr.local_pref limit)) [
        | inl e ↦ rw (e, above e)
        | inr e ↦ rw (e, not_above e)
      ])
  where
    above : ltb r.attr.local_pref limit ≡ true → leb (key_pref r) (uint32_max - limit) ≡ false
    above e = ground (arith, h r (inl refl))

    not_above : ltb r.attr.local_pref limit ≡ false → leb (key_pref r) (uint32_max - limit) ≡ true
    not_above e = ground (arith, h r (inl refl))

highest_pref_loop-le :
    (best : ℕ) (rs : List Route)
    → best ≤ uint32_max
    → ((r : Route) → In r rs → r.attr.local_pref ≤ uint32_max)
    → highest_pref_loop best rs ≤ uint32_max
unfolding highest_pref_loop
highest_pref_loop-le best [] b h = b
highest_pref_loop-le best (r ∷ rs) b h = elim (Bool-cases (ltb best r.attr.local_pref)) [
  | inl e ↦ rw e (highest_pref_loop-le r.attr.local_pref rs (h r (inl refl)) (λ s i. h s (inr i)))
  | inr e ↦ rw e (highest_pref_loop-le best rs b (λ s i. h s (inr i)))
]

route_path_length_lem :
    {med : MedType} {router : Router} (r : Route)
    → IsComparable med router r
    → route_path_length r ≡ some (key_length r)
unfolding route_path_length
route_path_length_lem {med} {router} r c = go r.attr.path_ref c.well
  where
    go :
        (o : Option AsPath)
        → IsWellPath (segments_of o)
        → (elim o [ none ↦ some 0 | some p ↦ path_length (some p) ])
          ≡ some (hop_count (segments_of o))
    go none w = refl
    go (some p) w = path_length_lem p (IsWellPath-IsPlain p w)

effective_router_id_lem :
    {med : MedType} {router : Router} (r : Route)
    → IsComparable med router r
    → effective_router_id r ≡ some (key_router_id r)
unfolding effective_router_id
effective_router_id_lem r c = ground (arith, c.has_peer)

-- The rules on a non-empty list of comparable routes.
module _ (med : MedType) (router : Router) (x : Route) (xs : List Route)
    (comparable : Comparable med router (x ∷ xs)) where
  here : IsComparable med router x
  here = comparable x (inl refl)

  -- The rule leaves exactly the routes of the highest LOCAL-PREF, if the routes are comparable.
  pub highest_pref_rule : dp_rule_highest_pref router (x ∷ xs) ≡ some (minimal key_pref (x ∷ xs))
  unfolding dp_rule_highest_pref
  highest_pref_rule = ap some (
      discard_below_pref_lem (highest_pref_loop 0 (x ∷ xs)) (x ∷ xs)
        (highest_pref_loop-le 0 (x ∷ xs) (omega arith) fits) fits
      ∙ ap (λ n. keep (λ r. leb (key_pref r) n) (x ∷ xs))
          (highest_pref_loop_lem 0 (x ∷ xs) (omega arith) fits)
      ∙ keep-least key_pref uint32_max (x ∷ xs) x (inl refl) (omega arith))
    where
      fits : (r : Route) → In r (x ∷ xs) → r.attr.local_pref ≤ uint32_max
      fits r i = (comparable r i).pref_fits

  -- The rule leaves exactly the routes of the shortest AS-Path, if the routes are comparable.
  pub shortest_path_rule :
      dp_rule_shortest_path router (x ∷ xs) ≡ some (minimal key_length (x ∷ xs))
  unfolding dp_rule_shortest_path
  shortest_path_rule =
      let known = λ (r : Route) (i : In r (x ∷ xs)). route_path_length_lem r (comparable r i) in
      lowest-minimal route_path_length route_path_length key_length 255 (x ∷ xs) known known x
        (inl refl) here.length_fits

  -- The rule leaves exactly the routes of the lowest ORIGIN (IGP, EGP, INCOMPLETE).
  pub lowest_origin_rule :
      dp_rule_lowest_origin router (x ∷ xs) ≡ some (minimal key_origin (x ∷ xs))
  unfolding dp_rule_lowest_origin
  lowest_origin_rule =
      lowest-minimal _ _ key_origin 2 (x ∷ xs) (λ r i. refl) (λ r i. refl) x (inl refl)
        (ground arith)

  -- With the always-compare option the MED rule leaves exactly the routes of the lowest MED of all.
  pub always_compare_rule :
      dp_rule_lowest_med always_compare router (x ∷ xs) ≡ some (minimal key_med (x ∷ xs))
  unfolding dp_rule_lowest_med
  always_compare_rule =
      lowest-minimal _ _ key_med uint32_max (x ∷ xs) (λ r i. refl) (λ r i. refl) x (inl refl)
        here.med_fits

  -- The rule leaves exactly the routes of the lowest Originator-ID, or router-ID where there is none.
  pub lowest_router_id_rule :
      dp_rule_lowest_router_id router (x ∷ xs) ≡ some (minimal key_router_id (x ∷ xs))
  unfolding dp_rule_lowest_router_id
  lowest_router_id_rule =
      let known = λ (r : Route) (i : In r (x ∷ xs)). effective_router_id_lem r (comparable r i) in
      lowest-minimal _ _ key_router_id uint32_max (x ∷ xs) known known x (inl refl)
        here.router_id_fits

  -- The rule leaves exactly the routes of the shortest Cluster-ID-List.
  pub shortest_cluster_list_rule :
      dp_rule_shortest_cluster_list router (x ∷ xs) ≡ some (minimal key_cluster (x ∷ xs))
  unfolding dp_rule_shortest_cluster_list
  shortest_cluster_list_rule =
      lowest-minimal (λ r. some (key_cluster r % 256)) _ key_cluster 255 (x ∷ xs) known
        (λ r i. refl) x (inl refl) here.cluster_fits
    where
      known : (r : Route) → In r (x ∷ xs) → some (key_cluster r % 256) ≡ some (key_cluster r)
      known r i = ap {B = Option ℕ} some (omega (arith, (comparable r i).cluster_fits))

  -- The rule leaves exactly the routes learned from the lowest neighbor address.
  pub lowest_neighbor_address_rule :
      dp_rule_lowest_neighbor_address router (x ∷ xs) ≡ some (minimal key_address (x ∷ xs))
  unfolding dp_rule_lowest_neighbor_address
  lowest_neighbor_address_rule =
      lowest-minimal neighbor_address neighbor_address key_address uint32_max (x ∷ xs) known known x
        (inl refl) (ground (arith, here.has_peer, here.address_fits))
    where
      known : (r : Route) → In r (x ∷ xs) → neighbor_address r ≡ some (key_address r)
      known r i = rw (comparable r i).has_peer

  -- The rule leaves exactly the routes of the lowest IGP cost to the next-hop, each marked with DP_IGP,
  -- if the routes are comparable.
  pub nearest_next_hop_rule :
      dp_rule_nearest_next_hop router (x ∷ xs)
      ≡ some (minimal (key_cost router) (map marked (x ∷ xs)))
  unfolding dp_rule_nearest_next_hop
  nearest_next_hop_rule =
      lowest-minimal _ _ (key_cost router) uint32_max (map marked (x ∷ xs)) known known (marked x)
        (inl refl) (ground (arith, here.cost_known, here.cost_fits))
    where
      known :
          (r : Route)
          → In r (map marked (x ∷ xs))
          → router.igp_cost r.attr.next_hop ≡ some (key_cost router r)
      known r i =
          let (s, j, e) = map-In marked r (x ∷ xs) i in rw e (rw (comparable s j).cost_known)
