-- ===== src/Speaker/Told.antt =====
-- The Adj-RIB-Outs and the messages sent to the peers (src/bgp/as.c, src/bgp/peer.c).
use cbgp.Base.{
  ◌≡◌, refl, sym, ap, ◌∙◌, subst, Bool, true, false, Option, none, some, List, [], ◌∷◌, All,
  if◌then◌else◌, >>=-some, some_injective, ◌⊎◌, inl, inr, Outcome, ok, error, aborted, ◌&&◌,
}
use cbgp.Route.{Peer, Route}
use cbgp.Speaker.{
  is_established, update, withdraw, close, opening, Message, Session, Bgp, Env, peer_send,
  send_enabled,
}
use cbgp.Speaker.Process.{
  withdraw_sent, announced, advertisement, to_established, disseminate_to_peer, disseminate,
  decision_process,
}
use cbgp.Speaker.Every.{IsLasting}
use cbgp.Speaker.Lasting.{decision_process-lasts}

-- What a peer knows from the messages sent to it, the last one first: the route of the last update,
-- if no withdraw, close or open followed it.
abbrev pub last_told : List Message → Option Route
last_told [] = none
last_told (m ∷ ms) = elim m.content [
  | update r ↦ some r
  | withdraw ↦ none
  | close ↦ none
  | opening _ ↦ none
]

-- The peer knows no route where the Adj-RIB-Out has none, else the one that is announced for it.
abbrev pub Announced : Env → Session → Option Route → Option Route → Type 0
Announced env s none told = told ≡ none
Announced env s (some r) told =
    (out : Route) × (advertisement env r s ≡ ok out)
    × (told ≡ some (record out { peer = some s.view }))

abbrev pub Told : Env → Session → Type 0
Told env s = Announced env s s.adj_out (last_told s.sent)

-- Sessions that differ in the Adj-RIB-In at most.
record Same (s t : Session) : Type 0 where
  view : t.view ≡ s.view
  filter : t.filter_out ≡ s.filter_out
  adj_out : t.adj_out ≡ s.adj_out
  sent : t.sent ≡ s.sent

same : (s : Session) (o : Option Route) → Same s (record s { adj_in = o })
same s o = record { view = refl; filter = refl; adj_out = refl; sent = refl }

advertised_view :
    (env : Env) (r : Route) (s t : Session)
    → Same s t
    → advertisement env r s ≡ advertisement env r t
advertised_view env r s t q = go q.view q.filter
  where
    go :
        t.view ≡ s.view
        → t.filter_out ≡ s.filter_out
        → advertisement env r s ≡ advertisement env r t
    go v f = rw (v, f) refl

Same-Told : (env : Env) (s t : Session) → Same s t → Told env s → Told env t
Same-Told env s t q h = go t.adj_out (
    subst (λ o. Announced env s o (last_told t.sent)) (sym q.adj_out)
      (subst (λ ms. Announced env s s.adj_out (last_told ms)) (sym q.sent) h))
  where
    go :
        (o : Option Route)
        → Announced env s o (last_told t.sent)
        → Announced env t o (last_told t.sent)
    go none h = h
    go (some r) (out, a, l) = (
      out,
      sym (advertised_view env r s t q) ∙ a,
      l ∙ ap (λ (p : Peer). some (record out { peer = some p })) (sym q.view),
    )

-- An Adj-RIB-Out is in step with a route, or with NULL.
abbrev pub InStep : Env → Option Route → Session → Type 0
InStep env none s = s.adj_out ≡ none
InStep env (some r) s =
    (s.adj_out ≡ some r) ⊎ ((advertisement env r s ≡ error) × (s.adj_out ≡ none))

-- A withdraw leaves a session with the same peer and output filter, and an empty Adj-RIB-Out.
record Withdrawn (env : Env) (s t : Session) : Type 0 where
  view : t.view ≡ s.view
  filter : t.filter_out ≡ s.filter_out
  empty : t.adj_out ≡ none
  told : Told env t

withdraw_sent-Withdrawn :
    (env : Env) (s : Session) → Told env s → Withdrawn env s (withdraw_sent env s)
withdraw_sent-Withdrawn env s h = go s.adj_out refl h
  where
    go :
        (o : Option Route)
        → s.adj_out ≡ o
        → Announced env s o (last_told s.sent)
        → Withdrawn env s
            (elim o [ none ↦ s | some _ ↦ peer_send env withdraw (record s { adj_out = none }) ])
    go none e h = record {
      view = refl;
      filter = refl;
      empty = e;
      told = subst (λ o. Announced env s o (last_told s.sent)) (sym e) h;
    }
    go (some r) e h = record { view = refl; filter = refl; empty = refl; told = refl }

-- What a dissemination makes of a session.
record Disseminated (env : Env) (route : Option Route) (t : Session) : Type 0 where
  told : Told env t
  in_step : InStep env route t

to_established-Disseminated :
    (env : Env) (route : Option Route) (s t : Session)
    → Told env s
    → to_established env route s ≡ some t
    → Disseminated env route t
to_established-Disseminated env none s t h e =
    subst (Disseminated env none) (some_injective (withdraw_sent env s) t e)
      (let w = withdraw_sent-Withdrawn env s h in record { told = w.told; in_step = w.empty })
to_established-Disseminated env (some r) s t h e = go (advertisement env r s) refl e
  where
    moved :
        (u : Session)
        → u.view ≡ s.view
        → u.filter_out ≡ s.filter_out
        → advertisement env r s ≡ error
        → advertisement env r u ≡ error
    moved u v f a = rw (v, f) a

    go :
        (o : Outcome Route)
        → advertisement env r s ≡ o
        → announced env r s o ≡ some t
        → Disseminated env (some r) t
    go (ok out) a e =
        subst (Disseminated env (some r)) (some_injective _ t e)
          (record { told = (out, a, refl); in_step = inl refl })
    go error a e =
        let w = withdraw_sent-Withdrawn env s h in
        subst (Disseminated env (some r)) (some_injective (withdraw_sent env s) t e) (record {
          told = w.told;
          in_step = inr (moved (withdraw_sent env s) w.view w.filter a, w.empty);
        })
    go aborted a e = absurd (cc)

-- A session that messages are sent to.
abbrev pub listens : Session → Bool
listens s = send_enabled s && is_established s.state

-- After a dissemination: a session that listens is in step with the route, and any other is the same.
abbrev pub Stepped : Env → Option Route → Session → Session → Type 0
Stepped env route s t =
    Told env t × ((listens s ≡ true → InStep env route t) × (listens s ≡ false → t ≡ s))

step-Stepped :
    (env : Env) (route : Option Route) (s t : Session)
    → Told env s
    → (if send_enabled s then disseminate_to_peer env route s else some s) ≡ some t
    → Stepped env route s t
unfolding disseminate_to_peer
step-Stepped env route s t h e = go (send_enabled s) (is_established s.state) refl refl e
  where
    unmoved : listens s ≡ false → some s ≡ some t → Stepped env route s t
    unmoved l e =
        let q = some_injective s t e in (subst (Told env) q h, (λ k. absurd (cc), λ k. sym q))

    go :
        (u v : Bool)
        → send_enabled s ≡ u
        → is_established s.state ≡ v
        → (if u then (if v then to_established env route s else some s) else some s) ≡ some t
        → Stepped env route s t
    go true true p q e =
        let d = to_established-Disseminated env route s t h e in
        (d.told, (λ k. d.in_step, λ k. let l : listens s ≡ true = rw (p, q) refl in absurd (cc)))
    go true false p q e = unmoved (rw (p, q) refl) e
    go false v p q e = unmoved (rw p refl) e

abbrev pub AllStepped : Env → Option Route → List Session → List Session → Type 0
AllStepped env route [] ts = ts ≡ []
AllStepped env route (s ∷ ss) [] = ⊥
AllStepped env route (s ∷ ss) (t ∷ ts) = Stepped env route s t × AllStepped env route ss ts

-- Where the peers know exactly what is announced for the routes in the Adj-RIB-Outs, this is so after
-- a route, or NULL, was disseminated; and then every established session that messages are sent on
-- has this route in its Adj-RIB-Out, or it has none and the route may not be announced to it. The
-- other sessions stay as they are.
pub disseminate_lem :
    (env : Env) (route : Option Route) (ss ts : List Session)
    → All (Told env) ss
    → disseminate env route ss ≡ some ts
    → AllStepped env route ss ts
unfolding disseminate
disseminate_lem env route [] ts h e = sym (some_injective [] ts e)
disseminate_lem env route (s ∷ ss) ts h e =
    let (t, p, e1) =
      >>=-some (if send_enabled s then disseminate_to_peer env route s else some s) _ ts e in
    let (us, q, e2) = >>=-some (disseminate env route ss) _ ts e1 in
    subst (AllStepped env route (s ∷ ss)) (some_injective (t ∷ us) ts e2)
      (step-Stepped env route s t h.0 p, disseminate_lem env route ss us h.1 q)

Told-IsLasting : (env : Env) → IsLasting env (Told env)
Told-IsLasting env = record {
  adj_in = λ s o h. Same-Told env s (record s { adj_in = o }) (same s o) h;
  established = λ route s t h e. (to_established-Disseminated env route s t h e).told;
}

-- The decision process keeps what the peers know in step with the Adj-RIB-Outs: if every peer knows
-- the route that is announced to it for the route in its Adj-RIB-Out, and none where that is empty,
-- then this is so afterwards.
pub decision_process-Told :
    (env : Env) (b b' : Bgp)
    → All (Told env) b.peers
    → decision_process env b ≡ some b'
    → All (Told env) b'.peers
decision_process-Told env = decision_process-lasts env (Told env) (Told-IsLasting env)
