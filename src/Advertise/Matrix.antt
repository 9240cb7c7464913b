-- ===== src/Advertise/Matrix.antt =====
-- The redistribution matrix of _bgp_router_advertise_to_peer (src/bgp/as.c).
use cbgp.Base.{
  ℕ, ◌≡◌, ◌≢◌, refl, sym, ap, ◌∙◌, Bool, true, false, not, ◌||◌, ◌&&◌, Option, none, some, [], ◌∷◌,
  ◌++◌, arith, ◌==◌, Outcome, ok, error, and_then, and_then-ok, ok_injective, if_error-ok,
  if◌then◌else◌,
}
use cbgp.Attr.Path.{AsPath, path_contains}
use cbgp.Attr.Comm.{comm_no_export, comm_no_advertise, comms_contains}
use cbgp.Route.{Peer, Route}
use cbgp.Decision.{Router}
use cbgp.Advertise.{
  internal, external, route_to, redistribute_to, values_of, cluster_list_append, is_source,
  redistribute, to_external, to_internal, reflect, reflected_originator, advertise_to_peer,
}
use cbgp.Advertise.Stages.{advertise-Announced}

==_true : (m n : ℕ) → m ≡ n → (m == n) ≡ true
==_true m n h = ground (arith, h)

==_false : (m n : ℕ) → m ≢ n → (m == n) ≡ false
==_false m n h = ground (arith, h)

pub route_to-internal :
    (router : Router) (dst : Peer) → router.asn ≡ dst.asn → route_to router dst ≡ internal
route_to-internal router dst h =
    ap (λ t. if t then internal else external) (==_true router.asn dst.asn h)

pub route_to-external :
    (router : Router) (dst : Peer) → router.asn ≢ dst.asn → route_to router dst ≡ external
route_to-external router dst h =
    ap (λ t. if t then internal else external) (==_false router.asn dst.asn h)

redistribute-internal :
    (router : Router) (dst : Peer) (r : Route)
    → router.asn ≡ dst.asn
    → redistribute router dst r ≡ to_internal router r.peer dst r
unfolding redistribute
redistribute-internal router dst r h =
    ap (λ l. redistribute_to l router dst r) (route_to-internal router dst h)

pub redistribute-external :
    (router : Router) (dst : Peer) (r : Route)
    → router.asn ≢ dst.asn
    → redistribute router dst r ≡ to_external dst r
unfolding redistribute
redistribute-external router dst r h =
    ap (λ l. redistribute_to l router dst r) (route_to-external router dst h)

to_internal-reflect :
    (router : Router) (src dst : Peer) (r : Route)
    → router.asn ≡ src.asn
    → to_internal router (some src) dst r ≡ reflect router src dst r
unfolding to_internal
to_internal-reflect router src dst r h =
    ap (λ t. if t then reflect router src dst r else ok r) (==_true router.asn src.asn h)

error_either_way : (t : Bool) (o : Outcome Route) → o ≡ error → (if t then error else o) ≡ error
error_either_way true o e = refl
error_either_way false o e = e

error_first : (o : Outcome Route) (f : Route → Outcome Route) → o ≡ error → and_then o f ≡ error
error_first o f e = rw e

-- A router that is no route-reflector never announces to an iBGP peer what it learned from one,
-- whatever the filters are: every such call returns -1.
pub no_ibgp_to_ibgp :
    (intern : AsPath → AsPath) (policy : Route → Option (Option Route)) (router : Router)
    (src dst : Peer) (r : Route)
    → router.reflector ≡ false
    → r.peer ≡ some src
    → router.asn ≡ src.asn
    → router.asn ≡ dst.asn
    → advertise_to_peer intern policy router dst r ≡ error
unfolding advertise_to_peer reflect
no_ibgp_to_ibgp intern policy router src dst r f p e h =
    error_either_way (is_source r.peer dst) _
      (error_either_way (comms_contains r.attr.comms comm_no_advertise) _ (error_first _ _ refused))
  where
    refused : redistribute router dst r ≡ error
    refused =
        redistribute-internal router dst r h
        ∙ ap (λ o. to_internal router o dst r) p
        ∙ to_internal-reflect router src dst r e
        ∙ rw (f, reflect)

-- A route for which something is announced to an eBGP peer was not learned from that peer, and came
-- with neither the community NO_ADVERTISE nor NO_EXPORT, and with an AS-Path without the AS number of
-- the peer.
pub announced_external :
    (intern : AsPath → AsPath) (policy : Route → Option (Option Route)) (router : Router)
    (dst : Peer) (r out : Route)
    → router.asn ≢ dst.asn
    → advertise_to_peer intern policy router dst r ≡ ok out
    → (is_source r.peer dst ≡ false)
      × (comms_contains r.attr.comms comm_no_advertise ≡ false)
      × (comms_contains r.attr.comms comm_no_export ≡ false)
      × (path_contains r.attr.path_ref dst.asn ≡ 0)
unfolding to_external
announced_external intern policy router dst r out h e =
    let a = advertise-Announced intern policy router dst r out e in
    let (b, c) =
      if_error-ok (comms_contains r.attr.comms comm_no_export) _ a.r1
        (sym (redistribute-external router dst r h) ∙ a.redistributed) in
    (a.other_peer, a.may_advertise, b, no_loop (path_contains r.attr.path_ref dst.asn) a.r1 _ c)
  where
    no_loop : (n : ℕ) (s t : Route) → (if n == 0 then ok t else error) ≡ ok s → n ≡ 0
    no_loop n s t q = ground (arith, q)

-- The route that a reflector passes on: an Originator-ID is set where there was none, and its own
-- cluster-ID is behind the others.
abbrev pub reflected : Router → Peer → Route → Route
reflected router src r = record r {
  attr = record (r.attr) {
    originator = some (elim r.attr.originator [ none ↦ src.router_id | some o ↦ o ]);
    cluster_list = some (values_of r.attr.cluster_list ++ router.cluster_id ∷ []);
  };
}

reflected_originator_ok :
    (router : Router) (src dst : Peer) (r s : Route)
    → reflected_originator src dst r ≡ ok s
    → (r.attr.originator ≢ some dst.router_id)
      × (cluster_list_append s router.cluster_id ≡ reflected router src r)
reflected_originator_ok router src dst r s = go r.attr.originator
  where
    with : Option ℕ → Route
    with o = record r { attr = record (r.attr) { originator = o } }

    go :
        (o : Option ℕ)
        → reflected_originator src dst (with o) ≡ ok s
        → (o ≢ some dst.router_id)
          × (cluster_list_append s router.cluster_id ≡ reflected router src (with o))
    go none e =
        (λ q. cc, ap (λ t. cluster_list_append t router.cluster_id) (sym (ok_injective _ s e)))
    go (some o) e =
        let (a, q) = if_error-ok (o == dst.router_id) _ s e in
        (
          λ p. absurd (ground (arith, a, p)),
          ap (λ t. cluster_list_append t router.cluster_id) (sym (ok_injective _ s q)),
        )

-- A route learned from an iBGP peer passes the redistribution matrix towards another iBGP peer only
-- in a route-reflector, if one of the two peers is a client and the route does not come from the
-- other peer; it then has an Originator-ID, and the cluster-ID of the router behind the others.
pub redistribute-reflected :
    (router : Router) (src dst : Peer) (r s : Route)
    → r.peer ≡ some src
    → router.asn ≡ src.asn
    → router.asn ≡ dst.asn
    → redistribute router dst r ≡ ok s
    → (router.reflector ≡ true)
      × ((r.flags.rr_client || dst.rr_client) ≡ true)
      × (r.attr.originator ≢ some dst.router_id)
      × (s ≡ reflected router src r)
unfolding reflect
redistribute-reflected router src dst r s p h k e =
    let e0 : reflect router src dst r ≡ ok s =
      sym (
        redistribute-internal router dst r k
        ∙ ap (λ o. to_internal router o dst r) p
        ∙ to_internal-reflect router src dst r h)
      ∙ e in
    let (a, e1) = if_error-ok (not router.reflector) _ s e0 in
    let (b, e2) = if_error-ok (not r.flags.rr_client && not dst.rr_client) _ s e1 in
    let (r', c, e3) = and_then-ok (reflected_originator src dst r) _ s e2 in
    let (d, f) = reflected_originator_ok router src dst r r' c in
    (
      is_true router.reflector a,
      one_client r.flags.rr_client dst.rr_client b,
      d,
      sym (ok_injective _ s e3) ∙ f,
    )
  where
    is_true : (t : Bool) → not t ≡ false → t ≡ true
    is_true t q = ground (arith, q)

    one_client : (t u : Bool) → (not t && not u) ≡ false → (t || u) ≡ true
    one_client t u q = ground (arith, q)
