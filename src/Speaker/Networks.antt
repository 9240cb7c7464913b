-- ===== src/Speaker/Networks.antt =====
-- The local networks of a router: bgp_router_add_network and bgp_router_del_network of src/bgp/as.c.
use cbgp.Base.{true, false, Option, none, some, ◌>>=◌}
use cbgp.Net.Prefix.{Prefix}
use cbgp.Route.{Route, igp}
use cbgp.Speaker.{done, Error, success, unspecified, duplicate, Bgp, Env}
use cbgp.Speaker.Process.{disseminate}

abbrev pub local_route : Env → Prefix → Route
local_route env prefix = record {
  prefix = prefix;
  peer = none;
  attr = record {
    next_hop = env.router.rid;
    origin = igp;
    local_pref = env.default_pref;
    med = 0;
    path_ref = none;
    comms = none;
    ecomms = none;
    originator = none;
    cluster_list = none;
  };
  flags = record {
    feasible = true;
    eligible = false;
    best = true;
    advertised = false;
    dp_igp = false;
    internal = true;
    rr_client = false;
  };
}

unfoldable pub add_network : Env → Prefix → Bgp → Option (Bgp × Error)
unfolding disseminate
add_network env prefix b = elim b.local_net [
  | some _ ↦ done duplicate b
  | none ↦ disseminate env (some (local_route env prefix)) b.peers >>= λ ss. some (
    record b {
      peers = ss;
      loc_rib = some (local_route env prefix);
      local_net = some (local_route env prefix);
    },
    success,
  )
]

unfoldable pub del_network : Env → Bgp → Option (Bgp × Error)
unfolding disseminate
del_network env b = elim b.local_net [
  | none ↦ done unspecified b
  | some _ ↦ disseminate env none b.peers >>= λ ss.
      some (record b { peers = ss; loc_rib = none; local_net = none }, success)
]
