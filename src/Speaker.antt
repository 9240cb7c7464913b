-- ===== src/Speaker.antt =====
-- A BGP router with its sessions at one destination prefix: src/bgp/as.c, src/bgp/peer.c, src/bgp/dp_rt.c
-- and src/bgp/types.h. The RIBs and the routing table are maps from prefixes; here they are taken at
-- the one prefix that the operations are about, where each holds one route or none.
--
-- A pointer to a peer is the peer as it was when the route was stored; where the code reads through
-- the pointer of a route of an Adj-RIB-In, the peer of the session is put in its place.
pub mod Process
pub mod Fsm
pub mod Handle
pub mod Networks
pub mod Config
pub mod Scan
pub mod Every
pub mod Lasting
pub mod Told
pub mod Steady
pub mod Shutdown
pub mod Learnt
pub mod Received
pub mod Configured
pub mod Reach
pub mod Routing
pub mod Peers
pub mod Selection
pub mod Silent
pub mod Sequence
pub mod Stale
use cbgp.Base.{
  ℕ, suc, ◌+◌, ◌%◌, ◌^◌, Bool, true, false, Option, none, some, List, [], ◌∷◌, if◌then◌else◌, ◌||◌,
  not,
}
use cbgp.Attr.Path.{AsPath}
use cbgp.Route.{Peer, Route, Ecomm}
use cbgp.Decision.{Router, MedType}
use cbgp.Filter.{Rules}

-- bgp_peer_state_t
pub data SessionState : Type 0 where
  idle openwait established active : SessionState

abbrev pub is_established : SessionState → Bool
is_established established = true
is_established _ = false

-- The error codes that the modelled functions return or store; `network` stands for those of node_send_msg.
pub data Error : Type 0 where
  success unexpected unspecified duplicate invalid_address unknown_peer invalid_state incompatible
        unreachable out_of_seq :
      Error
  network : ℕ → Error

-- The four types of messages; a withdraw is one of the prefix.
pub data Content : Type 0 where
  update : Route → Content
  withdraw close : Content
  opening : ℕ → Content

-- bgp_msg_t
pub record Message : Type 0 where
  pub seq_num : ℕ
  pub peer_asn : ℕ
  pub content : Content

-- bgp_peer_t: `view` has the fields that routes refer to, `virtual` and `soft_restart` are flags,
-- `recording` says that there is a record stream, `sent` are the messages given to _bgp_peer_send,
-- the last one first.
pub record Session : Type 0 where
  pub view : Peer
  pub virtual : Bool
  pub soft_restart : Bool
  pub recording : Bool
  pub state : SessionState
  pub filter_in : Option Rules
  pub filter_out : Option Rules
  pub adj_in : Option Route
  pub adj_out : Option Route
  pub send_seq_num : ℕ
  pub recv_seq_num : ℕ
  pub last_error : Error
  pub sent : List Message

-- bgp_router_t: its peers, the Loc-RIB, the local networks, and the gateway of the BGP route in the
-- routing table of the node.
pub record Bgp : Type 0 where
  pub peers : List Session
  pub loc_rib : Option Route
  pub local_net : Option Route
  pub fib : Option ℕ

-- What does not change in an operation: the router, the options, whether the routing table has routes
-- of other types to the prefix (other_routes), and the parameters, which are the repository of paths,
-- the regular expressions, the addresses of the node, ecomms_equal, and three answers of the network that may depend on the gateway in the routing table: whether node_rt_lookup
-- finds a route to an address, the result of node_send_msg, and whether a ping (or, for a virtual
-- peer, a trace) reaches an address.
pub record Env : Type 0 where
  pub router : Router
  pub med : MedType
  pub default_pref : ℕ
  pub intern : AsPath → AsPath
  pub path_match : ℕ → Option AsPath → Option Bool
  pub has_address : ℕ → Bool
  pub ecomms_equal : Option (List Ecomm) → Option (List Ecomm) → Bool
  pub resolves : Option ℕ → ℕ → Bool
  pub send : Option ℕ → ℕ → Error
  pub reaches : Option ℕ → Bool → ℕ → Bool
  pub other_routes : Bool

abbrev pub with_best : Bool → Route → Route
with_best t r = record r { flags = record (r.flags) { best = t } }

-- _bgp_peer_send; the sequence number is an unsigned int.
abbrev pub peer_send : Env → Content → Session → Session
peer_send env c s = record s {
  send_seq_num = (s.send_seq_num + 1) % 2 ^ 32;
  sent = record { seq_num = s.send_seq_num; peer_asn = env.router.asn; content = c } ∷ s.sent;
}

abbrev pub send_result : Env → Option ℕ → Session → Error
send_result env fib s = if s.virtual then incompatible else env.send fib s.view.addr

abbrev pub send_enabled : Session → Bool
send_enabled s = not s.virtual || s.recording

-- The result of an operation with an error code.
abbrev pub done : Error → Bgp → Option (Bgp × Error)
done e b = some (b, e)
