-- ===== src/Speaker/Stale.antt =====
-- A local network over a learned route (src/bgp/as.c).
use cbgp.Base.{◌≡◌, refl, none, some, All, bind_some}
use cbgp.Net.Prefix.{Prefix}
use cbgp.Speaker.{done, success, Bgp, Env}
use cbgp.Speaker.Networks.{local_route, add_network, del_network}
use cbgp.Speaker.Peers.{Announces, disseminate-some, withdraw-some}

-- Where no advertisement of the local route aborts, adding a local network that is not there yet and
-- removing it goes through. It empties the Loc-RIB but leaves the gateway in the routing table as it
-- was, also if it was that of a route in the Loc-RIB.
pub del_network-add_network :
    (env : Env) (prefix : Prefix) (b : Bgp)
    → b.local_net ≡ none
    → All (Announces env (local_route env prefix)) b.peers
    → (c d : Bgp) × (add_network env prefix b ≡ done success c)
      × (del_network env c ≡ done success d)
      × (d.loc_rib ≡ none)
      × (d.local_net ≡ none)
      × (d.fib ≡ b.fib)
unfolding add_network del_network
del_network-add_network env prefix b n a =
    let (ss, e) = disseminate-some env (some (local_route env prefix)) b.peers a in
    let (ts, f) = withdraw-some env ss in
    (
      record b {
        peers = ss;
        loc_rib = some (local_route env prefix);
        local_net = some (local_route env prefix);
      },
      record b { peers = ts; loc_rib = none; local_net = none },
      rw n (bind_some _ ss _ e),
      bind_some _ ts _ f,
      refl,
      refl,
      refl,
    )
