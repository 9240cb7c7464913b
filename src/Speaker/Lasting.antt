-- ===== src/Speaker/Lasting.antt =====
-- The decision process and dissemination keep every property of sessions that lasts (src/bgp/as.c).
use cbgp.Base.{
  ◌≡◌, subst, Bool, true, false, Option, none, some, List, [], ◌∷◌, All, if◌then◌else◌, ◌>>=◌,
  >>=-some, some_injective, Bool-cases, inl, inr,
}
use cbgp.Route.{Route}
use cbgp.Route.Compare.{route_equals}
use cbgp.Speaker.{is_established, Session, Bgp, Env, with_best, send_enabled}
use cbgp.Speaker.Process.{
  to_established, disseminate_to_peer, disseminate, sessions_after, best_flag_off, best_flag_on,
  old_flag_off, get_feasible_routes, best_route, update_best_route, unchanged_best_route,
  no_best_route, rt_del_route, with_best_route, installed, is_local, decision_process,
}
use cbgp.Speaker.Every.{IsLasting, sessions_after-adj, change_adj_in-adj, old_flag_off-adj}

module _ (env : Env) (P : Session → Type 0) (lasts : IsLasting env P) where
  pub disseminate_to_peer-lasts :
      (route : Option Route) (s t : Session) → P s → disseminate_to_peer env route s ≡ some t → P t
  unfolding disseminate_to_peer
  disseminate_to_peer-lasts route s t h e = go (is_established s.state) e
    where
      go : (u : Bool) → (if u then to_established env route s else some s) ≡ some t → P t
      go true e = lasts.established route s t h e
      go false e = subst P (some_injective s t e) h

  pub disseminate-lasts :
      (route : Option Route) (ss ts : List Session)
      → All P ss
      → disseminate env route ss ≡ some ts
      → All P ts
  unfolding disseminate
  disseminate-lasts route [] ts h e = subst (All P) (some_injective [] ts e) tt
  disseminate-lasts route (s ∷ ss) ts h e =
      let (t, p, e1) =
        >>=-some (if send_enabled s then disseminate_to_peer env route s else some s) _ ts e in
      let (us, q, e2) = >>=-some (disseminate env route ss) _ ts e1 in
      subst (All P) (some_injective (t ∷ us) ts e2)
        (go (send_enabled s) t p, disseminate-lasts route ss us h.1 q)
    where
      go :
          (u : Bool) (t : Session)
          → (if u then disseminate_to_peer env route s else some s) ≡ some t
          → P t
      go true t e = disseminate_to_peer-lasts route s t h.0 e
      go false t e = subst P (some_injective s t e) h.0

  peers_of : (b c : Bgp) → some b ≡ some c → All P b.peers → All P c.peers
  peers_of b c e h = subst (λ (d : Bgp). All P d.peers) (some_injective b c e) h

  update_best_route-lasts :
      (b b' : Bgp) (ss : List Session) (r : Route)
      → All P ss
      → update_best_route env b ss r ≡ some b'
      → All P b'.peers
  unfolding update_best_route
  update_best_route-lasts b b' ss r h e =
      let (ts, p, q) =
        >>=-some
          (disseminate env (some (with_best true r)) (best_flag_on r (old_flag_off b.loc_rib ss))) _
          b' e in
      peers_of _ b' q (
        disseminate-lasts (some (with_best true r)) (best_flag_on r (old_flag_off b.loc_rib ss)) ts
          (change_adj_in-adj env P lasts.adj_in (λ _. with_best true r) r.peer
            (old_flag_off b.loc_rib ss) (old_flag_off-adj env P lasts.adj_in b.loc_rib ss h))
          p)

  no_best_route-lasts :
      (b b' : Bgp) (ss : List Session)
      → All P ss
      → no_best_route env b ss ≡ some b'
      → All P b'.peers
  unfolding no_best_route
  no_best_route-lasts b b' ss h e = go b.loc_rib e
    where
      go :
          (o : Option Route)
          → (elim o [
            | none ↦ some (record b { peers = ss })
            | some r ↦ rt_del_route env b.fib >>= λ fib.
                disseminate env none (best_flag_off r ss) >>= λ ss'.
                some (record b { peers = ss'; loc_rib = none; fib = fib })
          ])
            ≡ some b'
          → All P b'.peers
      go none e = peers_of _ b' e h
      go (some r) e =
          let (_, _, f) = >>=-some (rt_del_route env b.fib) _ b' e in
          let (ts, p, q) = >>=-some (disseminate env none (best_flag_off r ss)) _ b' f in
          peers_of _ b' q (
            disseminate-lasts none (best_flag_off r ss) ts
              (old_flag_off-adj env P lasts.adj_in (some r) ss h) p)

  with_best_route-lasts :
      (b b' : Bgp) (ss : List Session) (r : Route)
      → All P ss
      → with_best_route env b ss r ≡ some b'
      → All P b'.peers
  unfolding with_best_route
  with_best_route-lasts b b' ss r h e = go b.loc_rib e
    where
      compared :
          (o : Route) (t : Bool)
          → (elim t [
            | true ↦ some (unchanged_best_route b ss o r)
            | false ↦ update_best_route env b ss r
          ])
            ≡ some b'
          → All P b'.peers
      compared o true e =
          peers_of _ b' e (change_adj_in-adj env P lasts.adj_in (λ _. with_best true r) r.peer ss h)
      compared o false e = update_best_route-lasts b b' ss r h e

      go :
          (o : Option Route)
          → (elim o [
            | none ↦ update_best_route env b ss r
            | some o ↦
                route_equals false false (env.ecomms_equal o.attr.ecomms r.attr.ecomms) o r >>= λ t.
                elim t [
                  | true ↦ some (unchanged_best_route b ss o r)
                  | false ↦ update_best_route env b ss r
                ]
          ])
            ≡ some b'
          → All P b'.peers
      go none e = update_best_route-lasts b b' ss r h e
      go (some o) e =
          let (t, q, f) =
            >>=-some (route_equals false false (env.ecomms_equal o.attr.ecomms r.attr.ecomms) o r) _
              b' e in
          compared o t f

  pub decision_process-lasts :
      (b b' : Bgp) → All P b.peers → decision_process env b ≡ some b' → All P b'.peers
  unfolding decision_process installed
  decision_process-lasts b b' h e = elim (Bool-cases (is_local b.loc_rib)) [
    | inl l ↦ peers_of b b' (rw l at e) h
    | inr l ↦
        let (best, _, q) =
          >>=-some (best_route env (get_feasible_routes env b.fib b.peers)) _ b' (rw l at e) in
        go best q
  ]
    where
      go :
          (best : Option Route)
          → installed env b (sessions_after env b.fib b.peers) best ≡ some b'
          → All P b'.peers
      go none q =
          no_best_route-lasts b b' (sessions_after env b.fib b.peers)
            (sessions_after-adj env P lasts.adj_in b.fib b.peers h) q
      go (some r) q =
          with_best_route-lasts b b' (sessions_after env b.fib b.peers) r
            (sessions_after-adj env P lasts.adj_in b.fib b.peers h) q
