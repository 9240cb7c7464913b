-- ===== src/Speaker/Peers.antt =====
-- What the decision process leaves alone in the sessions (src/bgp/as.c), and when it goes through.
use cbgp.Base.{
  ℕ, ◌≡◌, ◌≢◌, refl, Bool, true, false, Option, none, some, List, [], ◌∷◌, All, if◌then◌else◌,
  Outcome, ok, error, aborted,
}
use cbgp.Route.{Route}
use cbgp.Decision.Keys.{key_address}
use cbgp.Decision.Choice.{Distinct}
use cbgp.Speaker.{is_established, Session, Env, with_best, send_enabled}
use cbgp.Speaker.Process.{
  withdraw_sent, announced, advertisement, to_established, disseminate_to_peer, disseminate,
  looked_at, candidate, sessions_after, with_candidate, get_feasible_routes, best_flag_on,
  old_flag_off, reset, with_feasible, feasible_route,
}
use cbgp.Speaker.Every.{sessions_after-adj, change_adj_in-adj, old_flag_off-adj}

-- The advertisement to the session does not abort.
abbrev pub Announces : Env → Route → Session → Type 0
Announces env r s = advertisement env r s ≢ aborted

pub changed-Announces :
    (env : Env) (fib : Option ℕ) (r r' : Route) (old : Option Route) (ss : List Session)
    → All (Announces env r) ss
    → All (Announces env r) (best_flag_on r' (old_flag_off old (sessions_after env fib ss)))
changed-Announces env fib r r' old ss a =
    change_adj_in-adj env (Announces env r) (λ s o h. h) (λ _. with_best true r') r'.peer
      (old_flag_off old (sessions_after env fib ss))
      (old_flag_off-adj env (Announces env r) (λ s o h. h) old (sessions_after env fib ss)
        (sessions_after-adj env (Announces env r) (λ s o h. h) fib ss a))

-- The dissemination goes through if no advertisement aborts; a withdraw always does.
abbrev Through : Env → Option Route → Session → Type 0
Through env none s = Unit
Through env (some r) s = Announces env r s

to_established-some :
    (env : Env) (route : Option Route) (s : Session)
    → Through env route s
    → (t : Session) × (to_established env route s ≡ some t)
to_established-some env none s a = (withdraw_sent env s, refl)
to_established-some env (some r) s a = go (advertisement env r s) a
  where
    go : (o : Outcome Route) → o ≢ aborted → (t : Session) × (announced env r s o ≡ some t)
    go (ok out) a = (_, refl)
    go error a = (withdraw_sent env s, refl)
    go aborted a = absurd (a refl)

step-some :
    (env : Env) (route : Option Route) (s : Session)
    → Through env route s
    → (t : Session) × ((if send_enabled s then disseminate_to_peer env route s else some s)
        ≡ some t)
unfolding disseminate_to_peer
step-some env route s a = go (send_enabled s) (is_established s.state)
  where
    go :
        (t u : Bool)
        → (q : Session) × ((if t
              then (if u then to_established env route s else some s)
              else some s)
            ≡ some q)
    go true true = to_established-some env route s a
    go true false = (s, refl)
    go false u = (s, refl)

pub disseminate-some :
    (env : Env) (route : Option Route) (ss : List Session)
    → All (Through env route) ss
    → (ss' : List Session) × (disseminate env route ss ≡ some ss')
unfolding disseminate
disseminate-some env route [] a = ([], refl)
disseminate-some env route (s ∷ ss) a =
    let (s', e) = step-some env route s a.0 in
    let (ss', f) = disseminate-some env route ss a.1 in (s' ∷ ss', rw e (rw f refl))

pub withdraw-some :
    (env : Env) (ss : List Session) → (ss' : List Session) × (disseminate env none ss ≡ some ss')
withdraw-some env ss = disseminate-some env none ss (every ss)
  where
    every : (ss : List Session) → All (Through env none) ss
    every [] = tt
    every (s ∷ ss) = (tt, every ss)

-- The peers of a router have different addresses.
abbrev pub DistinctPeers : List Session → Type 0
DistinctPeers [] = Unit
DistinctPeers (s ∷ ss) = All (λ (t : Session). s.view.addr ≢ t.view.addr) ss × DistinctPeers ss

-- A candidate comes from the peer of its session.
abbrev FromPeer : Session → Option Route → Type 0
FromPeer s none = Unit
FromPeer s (some r) = r.peer ≡ some s.view

abbrev FromFirst : Session → Session × Option Route → Type 0
FromFirst s q = FromPeer s q.1

candidate-FromPeer : (env : Env) (fib : Option ℕ) (s : Session) → FromPeer s (candidate env fib s).1
candidate-FromPeer env fib s = go (is_established s.state) s.adj_in
  where
    by_flag :
        (r : Route) (t u : Bool)
        → FromFirst s (
            if t
            then if u
              then (record s { adj_in = some (reset s.view r) }, some (reset s.view r))
              else (record s { adj_in = some (with_feasible false r) }, none)
            else (s, none))
    by_flag r true true = refl
    by_flag r true false = tt
    by_flag r false u = tt

    go :
        (t : Bool) (o : Option Route) → FromFirst s (if t then looked_at env fib s o else (s, none))
    go false o = tt
    go true none = tt
    go true (some r) = by_flag r r.flags.eligible (feasible_route env fib r)

other_candidates :
    (env : Env) (fib : Option ℕ) (n : ℕ) (ss : List Session)
    → All (λ (t : Session). n ≢ t.view.addr) ss
    → All (λ r. n ≢ key_address r) (get_feasible_routes env fib ss)
unfolding get_feasible_routes
other_candidates env fib n [] a = tt
other_candidates env fib n (s ∷ ss) a =
    go (candidate env fib s).1 (candidate-FromPeer env fib s) (other_candidates env fib n ss a.1)
  where
    go :
        (o : Option Route)
        → FromPeer s o
        → All (λ r. n ≢ key_address r) (get_feasible_routes env fib ss)
        → All (λ r. n ≢ key_address r) (with_candidate o (get_feasible_routes env fib ss))
    go none f h = h
    go (some r) f h = (rw f a.0, h)

pub get_feasible_routes-Distinct :
    (env : Env) (fib : Option ℕ) (ss : List Session)
    → DistinctPeers ss
    → Distinct key_address (get_feasible_routes env fib ss)
unfolding get_feasible_routes
get_feasible_routes-Distinct env fib [] d = tt
get_feasible_routes-Distinct env fib (s ∷ ss) d =
    go (candidate env fib s).1 (candidate-FromPeer env fib s)
      (get_feasible_routes-Distinct env fib ss d.1)
  where
    go :
        (o : Option Route)
        → FromPeer s o
        → Distinct key_address (get_feasible_routes env fib ss)
        → Distinct key_address (with_candidate o (get_feasible_routes env fib ss))
    go none f h = h
    go (some r) f h = (rw f (other_candidates env fib s.view.addr ss d.0), h)
