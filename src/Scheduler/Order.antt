-- ===== src/Scheduler/Order.antt =====
-- Events are processed in the order in which they were posted (src/sim/static_scheduler.c).
use mathlib.Core.List.{append_assoc}
use cbgp.Base.{
  ℕ, zero, suc, ◌-◌, ◌≡◌, refl, sym, ap, ◌∙◌, subst, Bool, true, false, Option, some, List, [], ◌∷◌,
  ◌++◌, ◌==◌,
}
use cbgp.Scheduler.{
  Scheduler, Reaction, Ending, success, time_limit, failed, post, post_all, popped, called, ticked,
  time_is_up, run_loop, run,
}

module _ {E W : Type 0} where
  -- The events that were processed, and behind them those in the queue, are those that were posted.
  abbrev pub InOrder : Scheduler E W → Type 0
  InOrder s = s.processed ++ s.events ≡ s.posted

  post-InOrder : (e : E) (s : Scheduler E W) → InOrder s → InOrder (post e s)
  post-InOrder e s h = sym (append_assoc s.processed s.events (e ∷ [])) ∙ ap (λ es. es ++ e ∷ []) h

  post_all-InOrder : (es : List E) (s : Scheduler E W) → InOrder s → InOrder (post_all es s)
  post_all-InOrder [] s h = h
  post_all-InOrder (e ∷ es) s h = post_all-InOrder es (post e s) (post-InOrder e s h)

  module _ (callback : E → W → Reaction E W) where
    called-InOrder :
        (e : E) (es : List E) (s : Scheduler E W)
        → s.events ≡ e ∷ es
        → InOrder s
        → InOrder (called callback e es s)
    called-InOrder e es s p h =
        post_all-InOrder (callback e s.world).posts (popped callback e es s)
          (append_assoc s.processed (e ∷ []) es ∙ ap (λ xs. s.processed ++ xs) (sym p) ∙ h)

    run_loop-InOrder :
        (fuel steps : ℕ) (s t : Scheduler E W) (x : Ending)
        → InOrder s
        → run_loop callback fuel steps s ≡ some (t, x)
        → InOrder t
    unfolding run_loop
    run_loop-InOrder zero steps s t x h e = absurd (cc)
    run_loop-InOrder (suc fuel) steps s t x h e =
        go s.cancelled s.events refl (λ u k. run_loop-InOrder fuel (steps - 1) u t x k) e
      where
        ends :
            (u : Scheduler E W) (y : Ending)
            → InOrder u
            → ◌≡◌ {A = Option (Scheduler E W × Ending)} (some (u, y)) (some (t, x))
            → InOrder t
        ends u y k q = subst InOrder (first q) k
          where
            first : ◌≡◌ {A = Option (Scheduler E W × Ending)} (some (u, y)) (some (t, x)) → u ≡ t
            first q = cc

        after_event :
            (v : Scheduler E W)
            → InOrder v
            → (a b c : Bool) (n : ℕ)
            → (run_loop callback fuel (steps - 1) (ticked callback v) ≡ some (t, x) → InOrder t)
            → ◌≡◌ {A = Option (Scheduler E W × Ending)}
                (elim a [
                  | false ↦ some (v, failed n)
                  | true ↦ elim b [
                    | true ↦ some (ticked callback v, time_limit)
                    | false ↦ elim c [
                      | true ↦ some (ticked callback v, success)
                      | false ↦ run_loop callback fuel (steps - 1) (ticked callback v)
                    ]
                  ]
                ])
                (some (t, x))
            → InOrder t
        after_event v k false b c n r q = ends v (failed n) k q
        after_event v k true true c n r q = ends (ticked callback v) time_limit k q
        after_event v k true false true n r q = ends (ticked callback v) success k q
        after_event v k true false false n r q = r q

        go :
            (c : Bool) (l : List E)
            → s.events ≡ l
            → ((u : Scheduler E W)
                → InOrder u
                → run_loop callback fuel (steps - 1) u ≡ some (t, x)
                → InOrder t)
            → ◌≡◌ {A = Option (Scheduler E W × Ending)}
                (elim c [
                  | true ↦ some (s, success)
                  | false ↦ elim l [
                    | [] ↦ some (s, success)
                    | f ∷ fs ↦ elim ((callback f s.world).code == 0) [
                      | false ↦ some (called callback f fs s, failed (callback f s.world).code)
                      | true ↦
                          elim (time_is_up callback (ticked callback (called callback f fs s))) [
                            | true ↦ some (ticked callback (called callback f fs s), time_limit)
                            | false ↦ elim (steps == 1) [
                              | true ↦ some (ticked callback (called callback f fs s), success)
                              | false ↦
                                  run_loop callback fuel
                                    (steps - 1)
                                    (ticked callback (called callback f fs s))
                            ]
                          ]
                    ]
                  ]
                ])
                (some (t, x))
            → InOrder t
        go true l p r q = ends s success h q
        go false [] p r q = ends s success h q
        go false (f ∷ fs) p r q =
            after_event (called callback f fs s) (called-InOrder f fs s p h)
              ((callback f s.world).code == 0)
              (time_is_up callback (ticked callback (called callback f fs s))) (steps == 1)
              (callback f s.world).code
              (r (ticked callback (called callback f fs s)) (called-InOrder f fs s p h)) q

    -- A run processes events in the order in which they were posted, with those that the callbacks
    -- post on the way: if the events processed so far and then those in the queue are the events
    -- posted so far, in this order, then this is so when the run ends, however it ends.
    pub run-InOrder :
        (fuel steps : ℕ) (s t : Scheduler E W) (x : Ending)
        → InOrder s
        → run callback fuel steps s ≡ some (t, x)
        → InOrder t
    unfolding run
    run-InOrder fuel steps s t x h e =
        run_loop-InOrder fuel steps (record s { cancelled = false }) t x h e
