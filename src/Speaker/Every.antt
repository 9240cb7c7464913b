-- ===== src/Speaker/Every.antt =====
-- What holds of every session and survives an operation of the router (src/bgp/as.c, src/bgp/peer.c).
use cbgp.Base.{
  ℕ, ◌≡◌, refl, subst, Bool, true, false, Option, none, some, List, [], ◌∷◌, map, All, ◌==◌,
  if◌then◌else◌, some_injective, Outcome, ok, error, aborted,
}
use cbgp.Route.{Peer, Route}
use cbgp.Speaker.{Content, update, withdraw, peer_send, is_established, Session, Env, with_best}
use cbgp.Speaker.Process.{
  withdraw_sent, announced, advertisement, to_established, change_in, change_adj_in, looked_at,
  candidate, sessions_after, old_flag_off, reset, with_feasible, feasible_route,
}
use cbgp.Speaker.Fsm.{find_peer, change_if}

pub All-map :
    (P : Session → Type 0) (f : Session → Session) (ss : List Session)
    → ((s : Session) → P s → P (f s))
    → All P ss
    → All P (map f ss)
All-map P f [] h a = tt
All-map P f (s ∷ ss) h a = (h s a.0, All-map P f ss h a.1)

-- The session that find_peer finds is one of them.
pub find_peer-All :
    (P : Session → Type 0) (addr : ℕ) (ss : List Session) (s : Session)
    → All P ss
    → find_peer addr ss ≡ some s
    → P s
find_peer-All P addr [] s h e = absurd (cc)
find_peer-All P addr (t ∷ ss) s h e = go (t.view.addr == addr) e (find_peer-All P addr ss s h.1)
  where
    go :
        (u : Bool)
        → (if u then some t else find_peer addr ss) ≡ some s
        → (find_peer addr ss ≡ some s → P s)
        → P s
    go true e r = subst P (some_injective t s e) h.0
    go false e r = r e

-- A change of the sessions with a given address.
pub change_peer-All :
    (P Q : Session → Type 0) (f : Session → Session) (addr : ℕ) (ss : List Session)
    → ((s : Session) → (s.view.addr == addr) ≡ true → P s → Q (f s))
    → ((s : Session) → (s.view.addr == addr) ≡ false → P s → Q s)
    → All P ss
    → All Q (map (change_if f addr) ss)
change_peer-All P Q f addr [] yes' no' h = tt
change_peer-All P Q f addr (s ∷ ss) yes' no' h =
    (go (s.view.addr == addr) refl, change_peer-All P Q f addr ss yes' no' h.1)
  where
    go : (u : Bool) → (s.view.addr == addr) ≡ u → Q (if u then f s else s)
    go true e = yes' s e h.0
    go false e = no' s e h.0

pub change_peer-All_same :
    (P : Session → Type 0) (f : Session → Session) (addr : ℕ) (ss : List Session)
    → ((s : Session) → P s → P (f s))
    → All P ss
    → All P (map (change_if f addr) ss)
change_peer-All_same P f addr ss h = change_peer-All P P f addr ss (λ s e. h s) (λ s e p. p)

-- A property that neither a change of an Adj-RIB-In nor a dissemination to one session breaks.
pub record IsLasting (env : Env) (P : Session → Type 0) : Type 0 where
  pub adj_in : (s : Session) (o : Option Route) → P s → P (record s { adj_in = o })
  pub established :
      (route : Option Route) (s t : Session) → P s → to_established env route s ≡ some t → P t

-- A dissemination to a session sends one message at most.
abbrev pub after_send : Env → Content → Option Route → Session → Session
after_send env c o s = record (peer_send env c s) { adj_out = o }

pub sending-IsLasting :
    (env : Env) (P : Session → Type 0)
    → ((s : Session) (o : Option Route) → P s → P (record s { adj_in = o }))
    → ((s : Session) (c : Content) (o : Option Route) → P s → P (after_send env c o s))
    → IsLasting env P
sending-IsLasting env P adj sent = record { adj_in = adj; established = established }
  where
    withdraw_sent-P : (s : Session) → P s → P (withdraw_sent env s)
    withdraw_sent-P s h = go s.adj_out
      where
        go :
            (o : Option Route)
            → P (elim o [
              | none ↦ s
              | some _ ↦ peer_send env withdraw (record s { adj_out = none })
            ])
        go none = h
        go (some r) = sent s withdraw none h

    announced-P :
        (r : Route) (s t : Session) (o : Outcome Route) → P s → announced env r s o ≡ some t → P t
    announced-P r s t (ok out) h e =
        subst P
          (some_injective (after_send env (update (record out { peer = some s.view })) (some r) s) t
            e)
          (sent s (update (record out { peer = some s.view })) (some r) h)
    announced-P r s t error h e =
        subst P (some_injective (withdraw_sent env s) t e) (withdraw_sent-P s h)
    announced-P r s t aborted h e = absurd (cc)

    established :
        (route : Option Route) (s t : Session) → P s → to_established env route s ≡ some t → P t
    established none s t h e =
        subst P (some_injective (withdraw_sent env s) t e) (withdraw_sent-P s h)
    established (some r) s t h e = announced-P r s t (advertisement env r s) h e

-- A property that no change of an Adj-RIB-In breaks.
module _ (env : Env) (P : Session → Type 0)
    (adj : (s : Session) (o : Option Route) → P s → P (record s { adj_in = o })) where
  abbrev First : Session × Option Route → Type 0
  First q = P q.0

  pub candidate-adj : (fib : Option ℕ) (s : Session) → P s → First (candidate env fib s)
  candidate-adj fib s h = go (is_established s.state) s.adj_in
    where
      by_flag :
          (r : Route) (t u : Bool)
          → First (
              if t
              then if u
                then (record s { adj_in = some (reset s.view r) }, some (reset s.view r))
                else (record s { adj_in = some (with_feasible false r) }, none)
              else (s, none))
      by_flag r true true = adj s (some (reset s.view r)) h
      by_flag r true false = adj s (some (with_feasible false r)) h
      by_flag r false u = h

      go : (t : Bool) (o : Option Route) → First (if t then looked_at env fib s o else (s, none))
      go false o = h
      go true none = h
      go true (some r) = by_flag r r.flags.eligible (feasible_route env fib r)

  pub sessions_after-adj :
      (fib : Option ℕ) (ss : List Session) → All P ss → All P (sessions_after env fib ss)
  sessions_after-adj fib ss h = All-map P (λ s. (candidate env fib s).0) ss (candidate-adj fib) h

  pub change_in-adj : (f : Route → Route) (addr : ℕ) (s : Session) → P s → P (change_in f addr s)
  change_in-adj f addr s k = go (s.view.addr == addr)
    where
      go :
          (t : Bool)
          → P (
              if t
              then record s { adj_in = elim s.adj_in [ none ↦ none | some r ↦ some (f r) ] }
              else s)
      go true = adj s (elim s.adj_in [ none ↦ none | some r ↦ some (f r) ]) k
      go false = k

  pub change_adj_in-adj :
      (f : Route → Route) (p : Option Peer) (ss : List Session)
      → All P ss
      → All P (change_adj_in f p ss)
  change_adj_in-adj f none ss h = h
  change_adj_in-adj f (some p) ss h = All-map P (change_in f p.addr) ss (change_in-adj f p.addr) h

  pub old_flag_off-adj :
      (o : Option Route) (ss : List Session) → All P ss → All P (old_flag_off o ss)
  old_flag_off-adj none ss h = h
  old_flag_off-adj (some r) ss h = change_adj_in-adj (with_best false) r.peer ss h
