-- ===== src/Examples/Adverts.antt =====
-- Advertisements of a router of AS 1 to an eBGP peer, to an iBGP peer, and by a route-reflector.

use cbgp.Base.{
  ℕ, ◌≡◌, ◌≢◌, refl, ap, true, false, ◌||◌, Option, some, [], ◌∷◌, ◌++◌, arith, replicate, ok,
  error,
}
use cbgp.Attr.Segment.{sequence}
use cbgp.Attr.Path.{AsPath, segments_of, path_contains}
use cbgp.Attr.Path.Order.{path_cmp_total_order}
use cbgp.Attr.Path.Prepend.{Prepended}
use cbgp.Attr.Comm.{comms_add, comm_no_export, comm_no_advertise, comms_contains}
use cbgp.Route.{Peer, Route}
use cbgp.Decision.{Router}
use cbgp.Advertise.{with_comms, redistribute, advertise_to_peer}
use cbgp.Advertise.Matrix.{no_ibgp_to_ibgp, reflected, redistribute-reflected}
use cbgp.Advertise.Scope.{KeepsComms, announced_communities}
use cbgp.Attr.Comm.Laws.{values}
use cbgp.Advertise.Loops.{Interns, KeepsPath, path_of, announced_path}
use cbgp.Advertise.Export.{exported, IsExportable, announce_external}
use cbgp.Examples.Routes.{router, neighbor, route_a, attributes, no_flags}

-- A repository that holds every path as it is, and a filter that accepts everything.
abbrev pub same : AsPath → AsPath
same p = p

pub same-Interns : Interns same
same-Interns p = (path_cmp_total_order p p p).0.1 refl

abbrev accept : Route → Option (Option Route)
accept r = some (some r)

accept-KeepsPath : KeepsPath accept
accept-KeepsPath r s e = ap (λ (t : Route). t.attr.path_ref) (inside r s e)
  where
    inside : (t u : Route) → ◌≡◌ {A = Option (Option Route)} (some (some t)) (some (some u)) → u ≡ t
    inside t u q = cc

abbrev pub other : Peer
other = neighbor 3 9

abbrev pub longer : AsPath
longer = record { type = sequence; asns = 9 ∷ 2 ∷ 1 ∷ [] } ∷ []

external_runs :
    advertise_to_peer same accept router other route_a ≡ ok (exported router other route_a longer)
unfolding advertise_to_peer comms_contains path_contains
external_runs = refl

accept-KeepsComms : KeepsComms accept
accept-KeepsComms r s e = ap (λ (t : Route). t.attr.comms) (inside r s e)
  where
    inside : (t u : Route) → ◌≡◌ {A = Option (Option Route)} (some (some t)) (some (some u)) → u ≡ t
    inside t u q = cc

-- A route with a community, and a redistribution community that adds NO_EXPORT for AS 3.
abbrev local_route : Route
local_route = record route_a {
  attr = record (route_a.attr) {
    comms = some (7 ∷ []);
    ecomms = some (
        record { transitive = false; type_high = 3; type_low = 8; red_filter = 0; red_asn = 3 }
        ∷ []);
  };
}

abbrev local_outcome : Route
local_outcome = exported router other (with_comms local_route (7 ∷ comm_no_export ∷ [])) longer

local_runs : advertise_to_peer same accept router other local_route ≡ ok local_outcome
unfolding advertise_to_peer comms_contains path_contains comms_add
local_runs = refl

announced_communities_example :
    ((k : ℕ) × (values local_outcome.attr.comms ≡ 7 ∷ replicate k comm_no_export))
    × (comms_contains local_route.attr.comms comm_no_export ≡ false)
    × (comms_contains local_outcome.attr.comms comm_no_advertise ≡ false)
announced_communities_example =
    announced_communities same accept router other local_route local_outcome accept-KeepsComms
      (omega arith) local_runs

announced_path_example :
    ((k : ℕ) × (path_of (exported router other route_a longer) ≡ path_of route_a ++ replicate k 1))
    × (path_contains (some longer) 3 ≡ 0)
announced_path_example =
    announced_path same same-Interns accept router other route_a
      (exported router other route_a longer) accept-KeepsPath (omega arith) external_runs

exportable : IsExportable router other route_a
unfolding path_contains comms_contains
exportable = record {
  other_as = omega arith;
  other_peer = refl;
  may_advertise = refl;
  may_export = refl;
  no_loop = refl;
  no_ecomms = refl;
  well = omega arith;
  short = omega arith;
}

announce_external_example :
    (q : AsPath) × Prepended 1 (segments_of route_a.attr.path_ref) 1 q
    × (advertise_to_peer same accept router other route_a ≡ ok (exported router other route_a q))
announce_external_example =
    announce_external same accept router other route_a (λ s. refl) exportable

-- A route learned from an iBGP peer.
abbrev inner_route : Route
inner_route = record {
  prefix = record { network = 0; mask = 8 };
  peer = some (neighbor 1 5);
  attr = attributes 0 longer;
  flags = no_flags;
}

no_ibgp_to_ibgp_example : advertise_to_peer same accept router (neighbor 1 6) inner_route ≡ error
no_ibgp_to_ibgp_example =
    no_ibgp_to_ibgp same accept router (neighbor 1 5) (neighbor 1 6) inner_route refl refl refl refl

abbrev mirror : Router
mirror = record {
  asn = 1;
  rid = 1;
  cluster_id = 77;
  reflector = true;
  igp_cost = λ next_hop. some 1;
}

abbrev client : Peer
client = record {
  asn = 1;
  addr = 6;
  router_id = 6;
  next_hop = 0;
  rr_client = true;
  next_hop_self = false;
}

mirror_runs :
    redistribute mirror client inner_route ≡ ok (reflected mirror (neighbor 1 5) inner_route)
unfolding redistribute
mirror_runs = refl

redistribute-reflected_example :
    (true ≡ true)
    × ((false || true) ≡ true)
    × (inner_route.attr.originator ≢ some client.router_id)
    × (reflected mirror (neighbor 1 5) inner_route ≡ reflected mirror (neighbor 1 5) inner_route)
redistribute-reflected_example =
    redistribute-reflected mirror (neighbor 1 5) client inner_route
      (reflected mirror (neighbor 1 5) inner_route) refl refl refl mirror_runs
