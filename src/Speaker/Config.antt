-- ===== src/Speaker/Config.antt =====
-- The peers of a router and their configuration: src/bgp/peer.c, src/bgp/peer-list.c, src/bgp/as.c.
-- The array of the peers is sorted by address and has every address once.
use cbgp.Base.{
  ℕ, Bool, true, false, Option, none, some, List, [], ◌∷◌, map, ltb, ◌==◌, if◌then◌else◌, ◌>>=◌,
}
use cbgp.Filter.{Rules}
use cbgp.Speaker.{
  done, idle, Error, success, unexpected, duplicate, invalid_address, unknown_peer, Session, Bgp,
  Env,
}
use cbgp.Speaker.Fsm.{find_peer, change_peer}

-- bgp_peer_create
abbrev pub peer_create : ℕ → ℕ → Session
peer_create asn addr = record {
  view = record {
    asn = asn;
    addr = addr;
    router_id = 0;
    next_hop = 0;
    rr_client = false;
    next_hop_self = false;
  };
  virtual = false;
  soft_restart = false;
  recording = false;
  state = idle;
  filter_in = none;
  filter_out = none;
  adj_in = none;
  adj_out = none;
  send_seq_num = 0;
  recv_seq_num = 0;
  last_error = success;
  sent = [];
}

-- The place of a new peer, by _bgp_peers_compare; `none` where there is one of this address.
abbrev pub peers_add : Session → List Session → Option (List Session)
peers_add p [] = some (p ∷ [])
peers_add p (s ∷ ss) =
    if s.view.addr == p.view.addr
    then none
    else if ltb p.view.addr s.view.addr
    then some (p ∷ s ∷ ss)
    else (peers_add p ss >>= λ ts. some (s ∷ ts))

unfoldable pub add_peer : Env → ℕ → ℕ → Bgp → Option (Bgp × Error)
add_peer env asn addr b =
    if env.has_address addr
    then done invalid_address b
    else elim (peers_add (peer_create asn addr) b.peers) [
      | none ↦ done duplicate b
      | some ss ↦ done success (record b { peers = ss })
    ]

-- bgp_peer_set_filter, for the input and the output filter.
abbrev pub with_filter : Bool → Option Rules → Session → Session
with_filter true f s = record s { filter_in = f }
with_filter false f s = record s { filter_out = f }

unfoldable pub set_filter : ℕ → Bool → Option Rules → Bgp → Option (Bgp × Error)
set_filter addr input f b = elim (find_peer addr b.peers) [
  | none ↦ done unknown_peer b
  | some _ ↦ done success (change_peer (with_filter input f) addr b)
]

abbrev pub with_peer_next_hop : ℕ → Session → Session
with_peer_next_hop a s = record s { view = record (s.view) { next_hop = a } }

-- bgp_peer_set_nexthop: the router must have the address.
unfoldable pub set_nexthop : Env → ℕ → ℕ → Bgp → Option (Bgp × Error)
set_nexthop env addr a b = find_peer addr b.peers >>= λ _.
    if env.has_address a
    then done success (change_peer (with_peer_next_hop a) addr b)
    else done unexpected b

abbrev pub with_recording : Bool → Session → Session
with_recording t s = record s { recording = t }

-- bgp_peer_set_record_stream, with a stream or NULL.
abbrev pub set_record_stream : ℕ → Bool → Bgp → Bgp
set_record_stream addr t b = change_peer (with_recording t) addr b

abbrev pub without_ribs : Session → Session
without_ribs s = record s { adj_in = none; adj_out = none }

-- bgp_router_clear_adj_rib and bgp_router_clear_rib; the routing table stays.
unfoldable pub clear_adj_rib : Bgp → Bgp
clear_adj_rib b = record b { peers = map without_ribs b.peers }

unfoldable pub clear_rib : Bgp → Bgp
clear_rib b = record b { loc_rib = none; peers = map without_ribs b.peers }
