-- ===== src/Advertise.antt =====
-- The advertisement of a route to a peer: _bgp_router_advertise_to_peer and bgp_router_ecomm_process
-- of src/bgp/as.c, with the updates of route attributes that they make (src/bgp/route.c,
-- src/bgp/attr.c, src/bgp/attr/ecomm.c). The result `ok r` is the route that is announced to the
-- peer with a return value of 0, `error` is a return value of -1.
--
-- Parameters: `intern` gives the path that the global repository holds for an AS-Path
-- (hash_set_add of libgds), and `policy` is the output filter of the peer, which may change the
-- route, or refuse it (the inner `none`).
pub mod Stages
pub mod Matrix
pub mod Loops
pub mod Export
pub mod Scope
use cbgp.Base.{
  ℕ, zero, suc, ◌/◌, ◌%◌, ◌≡◌, Bool, true, false, not, ◌&&◌, Option, none, some, List, [], ◌∷◌,
  ◌++◌, length, ◌==◌, if◌then◌else◌, Outcome, ok, error, aborted, and_then,
}
use cbgp.Attr.Path.{AsPath, prepend_loop, path_contains, segments_of}
use cbgp.Attr.Comm.{comm_no_export, comm_no_advertise, comms_add, comms_contains}
use cbgp.Route.{Ecomm, Peer, Attributes, Route}
use cbgp.Decision.{Router, uint32_max}

-- INTERNAL, EXTERNAL and LOCAL
pub data Location : Type 0 where
  internal external local : Location

abbrev pub route_from : Router → Option Peer → Location
route_from router none = local
route_from router (some p) = if router.asn == p.asn then internal else external

abbrev pub route_to : Router → Peer → Location
route_to router dst = if router.asn == dst.asn then internal else external

abbrev with_path : Route → AsPath → Route
with_path r p = record r { attr = record (r.attr) { path_ref = some p } }

abbrev pub with_comms : Route → List ℕ → Route
with_comms r c = record r { attr = record (r.attr) { comms = some c } }

abbrev pub with_next_hop : Route → ℕ → Route
with_next_hop r a = record r { attr = record (r.attr) { next_hop = a } }

abbrev pub values_of : Option (List ℕ) → List ℕ
values_of none = []
values_of (some c) = c

-- bgp_attr_comm_append: a fresh attribute where there is none.
abbrev pub comm_append : Route → ℕ → Outcome Route
comm_append r comm = elim (comms_add (values_of r.attr.comms) comm) [
  | none ↦ aborted
  | some c ↦ ok (with_comms r c)
]

abbrev pub ecomm_red : ℕ
ecomm_red = 3

-- ecomm_red_match: only the filter type ECOMM_RED_FILTER_AS can match.
abbrev pub ecomm_red_match : Ecomm → Peer → Bool
ecomm_red_match c peer = if c.red_filter == 0 then c.red_asn == peer.asn else false

-- The loop of ecomms_strip_non_transitive.
abbrev pub transitive_only : List Ecomm → List Ecomm
transitive_only [] = []
transitive_only (c ∷ cs) = if c.transitive then c ∷ transitive_only cs else transitive_only cs

abbrev strip_ecomms : Option (List Ecomm) → Option (List Ecomm)
strip_ecomms none = none
strip_ecomms (some cs) =
    if length cs == length (transitive_only cs)
    then some cs
    else if length (transitive_only cs) == 0
    then none
    else some (transitive_only cs)

abbrev pub route_ecomm_strip_non_transitive : Route → Route
route_ecomm_strip_non_transitive r = record r {
  attr = record (r.attr) { ecomms = strip_ecomms r.attr.ecomms };
}

-- NO_EXPORT, the loop detection at the sender, and the attributes of route reflection.
unfoldable pub to_external : Peer → Route → Outcome Route
to_external dst r =
    if comms_contains r.attr.comms comm_no_export
    then error
    else if path_contains r.attr.path_ref dst.asn == 0
    then ok (record r { attr = record (r.attr) { originator = none; cluster_list = none } })
    else error

-- route_originator_set asserts that there is none.
abbrev pub originator_set : Route → ℕ → Outcome Route
originator_set r id = elim r.attr.originator [
  | none ↦ ok (record r { attr = record (r.attr) { originator = some id } })
  | some _ ↦ aborted
]

abbrev pub cluster_list_append : Route → ℕ → Route
cluster_list_append r id = record r {
  attr = record (r.attr) { cluster_list = some (values_of r.attr.cluster_list ++ id ∷ []) };
}

abbrev pub reflected_originator : Peer → Peer → Route → Outcome Route
reflected_originator src dst r = elim r.attr.originator [
  | none ↦ originator_set r src.router_id
  | some o ↦ if o == dst.router_id then error else ok r
]

-- Case (5) of the redistribution matrix.
unfoldable pub reflect : Router → Peer → Peer → Route → Outcome Route
reflect router src dst r =
    if not router.reflector
    then error
    else if not r.flags.rr_client && not dst.rr_client
    then error
    else and_then (reflected_originator src dst r)
        (λ r'. ok (cluster_list_append r' router.cluster_id))

unfoldable pub to_internal : Router → Option Peer → Peer → Route → Outcome Route
unfolding reflect
to_internal router none dst r = if router.reflector then originator_set r router.rid else ok r
to_internal router (some src) dst r =
    if router.asn == src.asn then reflect router src dst r else ok r

-- The redistribution matrix.
abbrev pub redistribute_to : Location → Router → Peer → Route → Outcome Route
redistribute_to external router dst r = to_external dst r
redistribute_to _ router dst r = to_internal router r.peer dst r

unfoldable pub redistribute : Router → Peer → Route → Outcome Route
unfolding to_external to_internal
redistribute router dst r = redistribute_to (route_to router dst) router dst r

-- No redistribution to the neighbor the route was learned from.
abbrev pub is_source : Option Peer → Peer → Bool
is_source none dst = false
is_source (some src) dst = dst.router_id == src.router_id

-- ROUTE_MED_MISSING is the highest uint32.
abbrev pub clear_med : Location → Route → Route
clear_med external r = record r { attr = record (r.attr) { med = uint32_max } }
clear_med _ r = r

abbrev pub next_hop_for : Router → Peer → Route → Route
next_hop_for router dst r = with_next_hop r (if dst.next_hop == 0 then router.rid else dst.next_hop)

-- Case (4) of the last table; route_peer_get asserts that there is a peer.
abbrev pub from_external : Router → Peer → Option Peer → Route → Outcome Route
from_external router dst none r = aborted
from_external router dst (some src) r =
    if src.next_hop_self
    then ok (with_next_hop r router.rid)
    else if dst.next_hop == 0
    then ok r
    else ok (with_next_hop r dst.next_hop)

-- A filter that aborts, refuses the route or accepts it, perhaps changed.
abbrev pub policy_result : Option (Option Route) → Outcome Route
policy_result none = aborted
policy_result (some none) = error
policy_result (some (some r)) = ok r

module _ (intern : AsPath → AsPath) where
  -- bgp_attr_path_prepend: the attribute stays as it is where path_append fails; the callers here
  -- do not look at the error.
  abbrev pub prepended : Route → Outcome AsPath → Outcome Route
  prepended r (ok p) = ok (with_path r (intern p))
  prepended r error = ok r
  prepended r aborted = aborted

  unfoldable pub path_prepend : Route → ℕ → ℕ → Outcome Route
  unfolding prepend_loop
  path_prepend r asn amount = prepended r (prepend_loop amount (segments_of r.attr.path_ref) asn)

  -- The action of a redistribution community.
  abbrev red_action : ℕ → ℕ → Router → Route → Outcome Route
  red_action zero amount router r = path_prepend r router.asn amount
  red_action (suc zero) amount router r = comm_append r comm_no_export
  red_action (suc (suc zero)) amount router r = error
  red_action (suc (suc (suc _))) amount router r = aborted

  abbrev ecomm_step : Router → Peer → Ecomm → Route → Outcome Route
  ecomm_step router peer c r =
      if (c.type_high == ecomm_red) && ecomm_red_match c peer
      then red_action ((c.type_low / 8) % 8) (c.type_low % 8) router r
      else ok r

  ecomm_loop : Router → Peer → List Ecomm → Route → Outcome Route
  unfolding path_prepend
  ecomm_loop router peer [] r = ok r
  ecomm_loop router peer (c ∷ cs) r =
      and_then (ecomm_step router peer c r) (λ r'. ecomm_loop router peer cs r')

  -- `error` is the result 0: ignore the route.
  unfoldable pub ecomm_process : Router → Peer → Route → Outcome Route
  unfolding ecomm_loop
  ecomm_process router peer r = elim r.attr.ecomms [
    | none ↦ ok r
    | some cs ↦ ecomm_loop router peer cs r
  ]

  -- The attributes that are updated behind the filters.
  unfoldable pub rewrite : Location → Location → Router → Peer → Route → Outcome Route
  unfolding path_prepend
  rewrite from external router dst r = path_prepend (next_hop_for router dst r) router.asn 1
  rewrite external _ router dst r = from_external router dst r.peer r
  rewrite _ _ router dst r = ok r

  unfoldable pub advertise_to_peer :
      (Route → Option (Option Route)) → Router → Peer → Route → Outcome Route
  unfolding redistribute ecomm_process rewrite
  advertise_to_peer policy router dst r =
      if is_source r.peer dst
      then error
      else if comms_contains r.attr.comms comm_no_advertise
      then error
      else and_then (redistribute router dst r) (λ r1. and_then (ecomm_process router dst r1) (λ r2.
        and_then
          (policy_result
            (policy (clear_med (route_to router dst) (route_ecomm_strip_non_transitive r2))))
          (λ r3. rewrite (route_from router r.peer) (route_to router dst) router dst r3)))
