-- ===== src/Decision/Table.antt =====
-- DP_RULES (src/bgp/dp_rules.c) entry by entry: each rule makes the choice that its name says.
use cbgp.Base.{
  ℕ, ◌≡◌, refl, sym, ap, ◌∙◌, false, not, Option, some, List, [], ◌∷◌, ◌++◌, ◌||◌, map, All, any,
  keep_cong, In-keep, map-In,
}
use cbgp.Route.{Route, route_path_last_as}
use cbgp.Decision.{
  Router, MedType, deterministic, always_compare, marked, dp_rules, dp_rule_lowest_med,
  dp_rule_nearest_next_hop,
}
use cbgp.Decision.Select.{minimal, In-minimal, minimal-map, lowest-exists, keep-map}
use cbgp.Decision.Med.{beats}
use cbgp.Decision.Med.Deterministic.{
  unbeaten, lowest_per_as, deterministic_med_lem, In-lowest_per_as,
}
use cbgp.Decision.Keys.{
  key_pref, key_length, key_origin, key_med, key_session, key_cost, key_router_id, key_cluster,
  key_address, as_of, IsComparable, Comparable,
}
use cbgp.Decision.Rules.{
  highest_pref_rule, shortest_path_rule, lowest_origin_rule, always_compare_rule,
  nearest_next_hop_rule, lowest_router_id_rule, shortest_cluster_list_rule,
  lowest_neighbor_address_rule,
}
use cbgp.Decision.Rules.Session.{ebgp_over_ibgp_rule}
use cbgp.Decision.Choice.{Choice, select, by_key, Leaves, by_key-Leaves}

-- A route with the flag DP_IGP cleared, as the decision process receives it.
abbrev pub clean : Route → Route
clean r = record r { flags = record (r.flags) { dp_igp = false } }

abbrev pub Rule : Type 0
Rule = Router → List Route → Option (List Route)

-- What a rule leaves of comparable routes: the choice among them, but for the flag DP_IGP.
pub record Chosen (med : MedType) (router : Router) (rule : Rule) (p : Choice) (rs : List Route)
    : Type 0 where
  pub out : List Route
  pub runs : rule router rs ≡ some out
  pub chosen : map clean out ≡ select p (map clean rs)
  pub comparable : Comparable med router out

abbrev pub Makes : MedType → Router → Rule → Choice → Type 0
Makes med router rule p =
    (x : Route) (xs : List Route)
    → Comparable med router (x ∷ xs)
    → Chosen med router rule p (x ∷ xs)

-- A rule that leaves the routes of the lowest key.
key_rule :
    (med : MedType) (router : Router) (rule : Rule) (key : Route → ℕ)
    → (λ r. key (clean r)) ≡ key
    → ((x : Route) (xs : List Route)
        → Comparable med router (x ∷ xs)
        → rule router (x ∷ xs) ≡ some (minimal key (x ∷ xs)))
    → Makes med router rule (by_key key)
key_rule med router rule key blind h x xs c = record {
  out = minimal key (x ∷ xs);
  runs = h x xs c;
  chosen = sym (
      minimal-map clean key (x ∷ xs)
      ∙ ap (λ (k : Route → ℕ). map clean (minimal k (x ∷ xs))) blind);
  comparable = λ r i. c r (In-minimal key r (x ∷ xs) i).0;
}

marked-IsComparable :
    {med : MedType} {router : Router} (r : Route)
    → IsComparable med router r
    → IsComparable med router (marked r)
unfolding route_path_last_as
marked-IsComparable r c = record {
  peer = c.peer;
  has_peer = c.has_peer;
  pref_fits = c.pref_fits;
  well = c.well;
  length_fits = c.length_fits;
  med_fits = c.med_fits;
  last_known = c.last_known;
  cost = c.cost;
  cost_known = c.cost_known;
  cost_fits = c.cost_fits;
  router_id_fits = c.router_id_fits;
  cluster_fits = c.cluster_fits;
  address_fits = c.address_fits;
}

clean-marked : (rs : List Route) → map clean (map marked rs) ≡ map clean rs
clean-marked [] = refl
clean-marked (r ∷ rs) = ap (◌∷◌ (clean r)) (clean-marked rs)

nearest-Makes :
    (med : MedType) (router : Router)
    → Makes med router dp_rule_nearest_next_hop (by_key (key_cost router))
nearest-Makes med router x xs c = record {
  out = minimal (key_cost router) (map marked (x ∷ xs));
  runs = nearest_next_hop_rule med router x xs c;
  chosen = sym (
      ap (minimal (key_cost router)) (sym (clean-marked (x ∷ xs)))
      ∙ minimal-map clean (key_cost router) (map marked (x ∷ xs)));
  comparable = λ r i.
      let (s, j, e) =
        map-In marked r (x ∷ xs) (In-minimal (key_cost router) r (map marked (x ∷ xs)) i).0 in
      rw e (marked-IsComparable s (c s j));
}

any-map :
    (t : Route) (rs : List Route)
    → any (λ s. beats as_of s (clean t)) (map clean rs) ≡ any (λ s. beats as_of s t) rs
unfolding route_path_last_as
any-map t [] = refl
any-map t (r ∷ rs) = ap (◌||◌ (beats as_of r t)) (any-map t rs)

-- The deterministic MED rule: a route that no route of the same neighbor AS beats.
abbrev pub lowest_med_per_as : Choice
lowest_med_per_as rs r = unbeaten as_of rs r

deterministic-Makes :
    (router : Router)
    → Makes deterministic router (dp_rule_lowest_med deterministic) lowest_med_per_as
deterministic-Makes router x xs c = record {
  out = lowest_per_as as_of (x ∷ xs);
  runs = deterministic_med_lem as_of router (x ∷ xs) (λ r i. (c r i).last_known refl);
  chosen = sym (
      keep-map clean (unbeaten as_of (map clean (x ∷ xs))) (x ∷ xs)
      ∙ ap (map clean) (
          keep_cong (λ r. unbeaten as_of (map clean (x ∷ xs)) (clean r)) (unbeaten as_of (x ∷ xs))
            (x ∷ xs) (λ r _. ap not (any-map r (x ∷ xs)))));
  comparable = λ r i. c r (In-keep (unbeaten as_of (x ∷ xs)) r (x ∷ xs) i).0;
}

lowest_med_per_as-Leaves : Leaves lowest_med_per_as
lowest_med_per_as-Leaves x xs =
    let (a, i, h) = lowest-exists key_med x xs in
    let j = (In-lowest_per_as as_of a (x ∷ xs)).1 (i, λ s k e. h s k) in
    (a, i, (In-keep (unbeaten as_of (x ∷ xs)) a (x ∷ xs) j).1)

-- The choice that the MED rule makes.
abbrev pub med_choice : MedType → Choice
med_choice always_compare = by_key key_med
med_choice deterministic = lowest_med_per_as

med-Makes :
    (med : MedType) (router : Router) → Makes med router (dp_rule_lowest_med med) (med_choice med)
unfolding route_path_last_as
med-Makes always_compare router =
    key_rule always_compare router (dp_rule_lowest_med always_compare) key_med refl
      (always_compare_rule always_compare router)
med-Makes deterministic router = deterministic-Makes router

med_choice-Leaves : (med : MedType) → Leaves (med_choice med)
med_choice-Leaves always_compare = by_key-Leaves key_med
med_choice-Leaves deterministic = lowest_med_per_as-Leaves

-- A list of rules with the choices that they make.
pub data Table (med : MedType) (router : Router) : List Rule → List Choice → Type 1 where
  end : Table med router [] []
  row :
      {rule : Rule} {p : Choice} {rules : List Rule} {ps : List Choice}
      → Makes med router rule p
      → Table med router rules ps
      → Table med router (rule ∷ rules) (p ∷ ps)

-- The choices before the last one.
abbrev pub first_choices : MedType → Router → List Choice
first_choices med router =
    by_key key_pref
    ∷ by_key key_length
    ∷ by_key key_origin
    ∷ med_choice med
    ∷ by_key (key_session router)
    ∷ by_key (key_cost router)
    ∷ by_key key_router_id
    ∷ by_key key_cluster
    ∷ []

abbrev pub choices : MedType → Router → List Choice
choices med router = first_choices med router ++ by_key key_address ∷ []

pub first_choices-Leaves : (med : MedType) (router : Router) → All Leaves (first_choices med router)
first_choices-Leaves med router = (
  by_key-Leaves key_pref,
  (
    by_key-Leaves key_length,
    (
      by_key-Leaves key_origin,
      (
        med_choice-Leaves med,
        (
          by_key-Leaves (key_session router),
          (
            by_key-Leaves (key_cost router),
            (by_key-Leaves key_router_id, (by_key-Leaves key_cluster, tt)),
          ),
        ),
      ),
    ),
  ),
)

All-append :
    (P : Choice → Type 0) (ps : List Choice) (q : Choice) → All P ps → P q → All P (ps ++ q ∷ [])
All-append P [] q h k = (k, tt)
All-append P (p ∷ ps) q h k = (h.0, All-append P ps q h.1 k)

pub choices-Leaves : (med : MedType) (router : Router) → All Leaves (choices med router)
choices-Leaves med router =
    All-append Leaves (first_choices med router) (by_key key_address)
      (first_choices-Leaves med router) (by_key-Leaves key_address)

pub dp_rules-Table :
    (med : MedType) (router : Router) → Table med router (dp_rules med) (choices med router)
dp_rules-Table med router =
    row (key_rule med router _ key_pref refl (highest_pref_rule med router)) (
      row (key_rule med router _ key_length refl (shortest_path_rule med router)) (
        row (key_rule med router _ key_origin refl (lowest_origin_rule med router)) (
          row (med-Makes med router) (
            row (key_rule med router _ (key_session router) refl (ebgp_over_ibgp_rule med router)) (
              row (nearest-Makes med router) (
                row (key_rule med router _ key_router_id refl (lowest_router_id_rule med router)) (
                  row
                    (key_rule med router _ key_cluster refl (shortest_cluster_list_rule med router))
                    (row
                      (key_rule med router _ key_address refl
                        (lowest_neighbor_address_rule med router))
                      end))))))))
