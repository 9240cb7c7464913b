-- ===== src/Route.antt =====
-- BGP routes, the peers and routers they refer to, and the accessors of src/bgp/route.c. The struct
-- fields that the modelled functions read are here; a NULL pointer is `none`.
pub mod Compare
use cbgp.Base.{ℕ, Bool, Option, none, some, List}
use cbgp.Base.Int.{ℤ, minus_one}
use cbgp.Net.Prefix.{Prefix}
use cbgp.Attr.Path.{AsPath, path_length, path_last_as}

-- bgp_origin_t, with its codes 0, 1 and 2.
pub data Origin : Type 0 where
  igp egp incomplete : Origin

abbrev pub origin_code : Origin → ℕ
origin_code igp = 0
origin_code egp = 1
origin_code incomplete = 2

-- bgp_peer_t: the neighbor's AS number, address and router-ID, the next-hop to advertise to it (0 for
-- none), and the configuration flags PEER_FLAG_RR_CLIENT and PEER_FLAG_NEXT_HOP_SELF.
pub record Peer : Type 0 where
  pub asn : ℕ
  pub addr : ℕ
  pub router_id : ℕ
  pub next_hop : ℕ
  pub rr_client : Bool
  pub next_hop_self : Bool

-- bgp_ecomm_t: of the six bytes of `value`, the first one and the AS number in the last two.
pub record Ecomm : Type 0 where
  pub transitive : Bool
  pub type_high : ℕ
  pub type_low : ℕ
  pub red_filter : ℕ
  pub red_asn : ℕ

-- bgp_attr_t
pub record Attributes : Type 0 where
  pub next_hop : ℕ
  pub origin : Origin
  pub local_pref : ℕ
  pub med : ℕ
  pub path_ref : Option AsPath
  pub comms : Option (List ℕ)
  pub ecomms : Option (List Ecomm)
  pub originator : Option ℕ
  pub cluster_list : Option (List ℕ)

-- The bits of the field `flags`.
pub record Flags : Type 0 where
  pub feasible : Bool
  pub eligible : Bool
  pub best : Bool
  pub advertised : Bool
  pub dp_igp : Bool
  pub internal : Bool
  pub rr_client : Bool

pub record Route : Type 0 where
  pub prefix : Prefix
  pub peer : Option Peer
  pub attr : Attributes
  pub flags : Flags

unfoldable pub route_path_length : Route → Option ℕ
unfolding path_length
route_path_length r = elim r.attr.path_ref [ none ↦ some 0 | some p ↦ path_length (some p) ]

unfoldable pub route_path_last_as : Route → Option ℤ
unfolding path_last_as
route_path_last_as r = elim r.attr.path_ref [
  | none ↦ some minus_one
  | some p ↦ path_last_as (some p)
]

-- route_peer_get asserts that there is a peer.
abbrev pub route_peer_get : Route → Option Peer
route_peer_get r = r.peer

-- The Originator-ID where the route has one, else the router-ID of the peer.
unfoldable pub effective_router_id : Route → Option ℕ
effective_router_id r = elim r.attr.originator [
  | some o ↦ some o
  | none ↦ elim r.peer [ none ↦ none | some p ↦ some p.router_id ]
]
