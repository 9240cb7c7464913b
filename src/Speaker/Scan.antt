-- ===== src/Speaker/Scan.antt =====
-- The scan of the RIBs after a change of the IGP, at one prefix, and two commands that run the decision
-- process or the dissemination again (src/bgp/as.c).
use cbgp.Base.{ℕ, Bool, true, false, ◌||◌, Option, none, some, List, [], ◌∷◌, if◌then◌else◌, ◌>>=◌}
use cbgp.Route.{Route}
use cbgp.Speaker.{Session, Bgp, Env}
use cbgp.Speaker.Process.{decision_process, disseminate_to_peer}
use cbgp.Speaker.Fsm.{find_peer, put, addresses, session_refresh}
use cbgp.Speaker.Handle.{current_route}

-- The loop of _bgp_router_refresh_sessions.
unfoldable pub refresh_sessions : Env → List ℕ → Bgp → Option Bgp
unfolding session_refresh
refresh_sessions env [] b = some b
refresh_sessions env (a ∷ as') b = session_refresh env a b >>= λ c. refresh_sessions env as' c

abbrev has_route : Option Route → Bool
has_route none = false
has_route (some _) = true

-- Whether _bgp_router_prefixes finds the prefix: in an Adj-RIB-In or in the Loc-RIB.
abbrev pub known_prefix : List Session → Option Route → Bool
known_prefix [] loc = has_route loc
known_prefix (s ∷ ss) loc = has_route s.adj_in || known_prefix ss loc

-- bgp_router_scan_rib_for_each takes every prefix that it is given: it returns before its tests.
unfoldable pub scan_rib : Env → Bgp → Option Bgp
unfolding refresh_sessions decision_process
scan_rib env b = refresh_sessions env (addresses b) b >>= λ c.
    if known_prefix c.peers c.loc_rib then decision_process env c else some c

-- bgp_router_rerun for a prefix whose mask is not 0.
abbrev pub rerun : Env → Bgp → Option Bgp
rerun env b = decision_process env b

unfoldable pub readv_prefix : Env → ℕ → Bgp → Option Bgp
unfolding disseminate_to_peer
readv_prefix env addr b = find_peer addr b.peers >>= λ s. elim (current_route b) [
  | none ↦ some b
  | some r ↦ disseminate_to_peer env (some r) s >>= λ t. some (put addr t b)
]
