-- ===== src/Advertise/Stages.antt =====
-- The stages that an announced route has passed in _bgp_router_advertise_to_peer (src/bgp/as.c).
use cbgp.Base.{◌≡◌, false, Option, none, some, ok, and_then-ok, if_error-ok}
use cbgp.Attr.Path.{AsPath}
use cbgp.Attr.Comm.{comm_no_advertise, comms_contains}
use cbgp.Route.{Peer, Route}
use cbgp.Decision.{Router}
use cbgp.Advertise.{
  route_from, route_to, is_source, redistribute, ecomm_process, policy_result, clear_med,
  route_ecomm_strip_non_transitive, rewrite, advertise_to_peer,
}

module _ (intern : AsPath → AsPath) (policy : Route → Option (Option Route)) (router : Router)
    (dst : Peer) where
  pub record Announced (r out : Route) : Type 0 where
    pub other_peer : is_source r.peer dst ≡ false
    pub may_advertise : comms_contains r.attr.comms comm_no_advertise ≡ false
    pub r1 : Route
    pub redistributed : redistribute router dst r ≡ ok r1
    pub r2 : Route
    pub processed : ecomm_process intern router dst r1 ≡ ok r2
    pub r3 : Route
    pub accepted :
        policy (clear_med (route_to router dst) (route_ecomm_strip_non_transitive r2))
        ≡ some (some r3)
    pub rewritten :
        rewrite intern (route_from router r.peer) (route_to router dst) router dst r3 ≡ ok out

  policy_result_ok :
      (o : Option (Option Route)) (r : Route) → policy_result o ≡ ok r → o ≡ some (some r)
  policy_result_ok none r e = absurd (cc)
  policy_result_ok (some none) r e = absurd (cc)
  policy_result_ok (some (some s)) r e = cc

  pub advertise-Announced :
      (r out : Route) → advertise_to_peer intern policy router dst r ≡ ok out → Announced r out
  unfolding advertise_to_peer
  advertise-Announced r out e =
      let (a, e1) = if_error-ok (is_source r.peer dst) _ out e in
      let (b, e2) = if_error-ok (comms_contains r.attr.comms comm_no_advertise) _ out e1 in
      let (r1, c, e3) = and_then-ok (redistribute router dst r) _ out e2 in
      let (r2, d, e4) = and_then-ok (ecomm_process intern router dst r1) _ out e3 in
      let (r3, p, w) = and_then-ok (policy_result _) _ out e4 in
      record {
        other_peer = a;
        may_advertise = b;
        r1 = r1;
        redistributed = c;
        r2 = r2;
        processed = d;
        r3 = r3;
        accepted = policy_result_ok _ r3 p;
        rewritten = w;
      }
