-- ===== src/Advertise/Export.antt =====
-- What an eBGP peer receives from _bgp_router_advertise_to_peer (src/bgp/as.c).
use cbgp.Base.{
  ◌+◌, ◌≤◌, ◌≡◌, ◌≢◌, ap, ◌∙◌, Bool, false, Option, none, some, ◌==◌, if◌then◌else◌, Outcome, ok,
  error, and_then,
}
use cbgp.Attr.Path.{AsPath, segments_of, path_contains, prepend_loop}
use cbgp.Attr.Path.Length.{IsWellPath, hop_count}
use cbgp.Attr.Path.Prepend.{Prepended, prepend_loop_lem}
use cbgp.Attr.Comm.{comm_no_export, comm_no_advertise, comms_contains}
use cbgp.Route.{Peer, Route}
use cbgp.Decision.{Router, uint32_max}
use cbgp.Advertise.{
  Location, external, route_to, is_source, to_external, ecomm_process, path_prepend, rewrite,
  route_from, clear_med, route_ecomm_strip_non_transitive, policy_result, prepended, next_hop_for,
  advertise_to_peer,
}
use cbgp.Advertise.Matrix.{route_to-external, redistribute-external}

-- The route as an eBGP peer gets it, with a given AS-Path.
abbrev pub exported : Router → Peer → Route → AsPath → Route
exported router dst r q = record r {
  attr = record (r.attr) {
    next_hop = if dst.next_hop == 0 then router.rid else dst.next_hop;
    med = uint32_max;
    path_ref = some q;
    ecomms = none;
    originator = none;
    cluster_list = none;
  };
}

-- The conditions of the code on a route to an eBGP peer.
pub record IsExportable (router : Router) (dst : Peer) (r : Route) : Type 0 where
  pub other_as : router.asn ≢ dst.asn
  pub other_peer : is_source r.peer dst ≡ false
  pub may_advertise : comms_contains r.attr.comms comm_no_advertise ≡ false
  pub may_export : comms_contains r.attr.comms comm_no_export ≡ false
  pub no_loop : path_contains r.attr.path_ref dst.asn ≡ 0
  pub no_ecomms : r.attr.ecomms ≡ none
  pub well : IsWellPath (segments_of r.attr.path_ref)
  pub short : hop_count (segments_of r.attr.path_ref) + 1 ≤ 255

abbrev without_reflection : Route → Route
without_reflection r = record r {
  attr = record (r.attr) { ecomms = none; originator = none; cluster_list = none };
}

to_external_lem :
    (router : Router) (dst : Peer) (r : Route)
    → IsExportable router dst r
    → to_external dst r ≡ ok (without_reflection r)
unfolding to_external
to_external_lem router dst r x = rw (x.may_export, x.no_loop, x.no_ecomms)

-- The stages behind the redistribution matrix.
abbrev behind_matrix :
    (AsPath → AsPath)
    → (Route → Option (Option Route))
    → Location
    → Location
    → Router
    → Peer
    → Route
    → Outcome Route
behind_matrix intern policy from to router dst r1 =
    and_then (ecomm_process intern router dst r1) (λ r2.
      and_then (policy_result (policy (clear_med to (route_ecomm_strip_non_transitive r2))))
        (λ r3. rewrite intern from to router dst r3))

behind_matrix_external :
    (intern : AsPath → AsPath) (policy : Route → Option (Option Route)) (from : Location)
    (router : Router) (dst : Peer) (r : Route) (q : AsPath)
    → ((s : Route) → policy s ≡ some (some s))
    → prepend_loop 1 (segments_of r.attr.path_ref) router.asn ≡ ok q
    → behind_matrix intern policy from external router dst (without_reflection r)
      ≡ ok (exported router dst r (intern q))
unfolding ecomm_process rewrite path_prepend
behind_matrix_external intern policy from router dst r q accepts e =
    ap (λ o. and_then (policy_result o) (λ r3. rewrite intern from external router dst r3))
      (accepts (clear_med external (without_reflection r)))
    ∙ ap (prepended intern (next_hop_for router dst (clear_med external (without_reflection r)))) e

both_pass :
    (t u : Bool) (o : Outcome Route)
    → t ≡ false
    → u ≡ false
    → (if t then error else if u then error else o) ≡ o
both_pass t u o p q = rw (p, q)

-- A route that has none of the conditions that stop it is announced to an eBGP peer, if the output
-- filter accepts every route as it is: with the next-hop of the router (or that configured for the
-- peer), no MED, no route-reflection attributes, and the AS number of the router behind its AS-Path.
pub announce_external :
    (intern : AsPath → AsPath) (policy : Route → Option (Option Route)) (router : Router)
    (dst : Peer) (r : Route)
    → ((s : Route) → policy s ≡ some (some s))
    → IsExportable router dst r
    → (q : AsPath) × Prepended 1 (segments_of r.attr.path_ref) router.asn q
      × (advertise_to_peer intern policy router dst r ≡ ok (exported router dst r (intern q)))
unfolding advertise_to_peer
announce_external intern policy router dst r accepts x =
    let (q, e, p) = prepend_loop_lem 1 (segments_of r.attr.path_ref) router.asn x.well x.short in
    (
      q,
      p,
      both_pass (is_source r.peer dst) _ _ x.other_peer x.may_advertise
          ∙ ap
              (λ o. and_then o (
                behind_matrix intern policy (route_from router r.peer) (route_to router dst) router
                  dst))
              (redistribute-external router dst r x.other_as ∙ to_external_lem router dst r x)
          ∙ ap
              (λ l.
                behind_matrix intern policy (route_from router r.peer) l router dst
                  (without_reflection r))
              (route_to-external router dst x.other_as)
          ∙ behind_matrix_external intern policy (route_from router r.peer) router dst r q accepts
              e,
    )
