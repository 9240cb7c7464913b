-- ===== src/Scheduler/Limits.antt =====
-- A run with a limit on its steps ends (src/sim/static_scheduler.c).
use cbgp.Base.{
  ℕ, zero, suc, ◌+◌, ◌-◌, ◌≤◌, ◌<◌, ◌≡◌, ◌≢◌, refl, ap, ◌∙◌, subst, Bool, true, false, Option, some,
  List, [], ◌∷◌, ◌==◌, length, length-append, ◌⊎◌, inl, inr, arith,
}
use cbgp.Scheduler.{
  Scheduler, Reaction, Ending, success, time_limit, failed, post, post_all, popped, called, ticked,
  time_is_up, run_loop, run,
}

module _ {E W : Type 0} where
  post_all-processed : (es : List E) (s : Scheduler E W) → (post_all es s).processed ≡ s.processed
  post_all-processed [] s = refl
  post_all-processed (e ∷ es) s = post_all-processed es (post e s)

  -- Why a run ended after `n` of `steps` events.
  abbrev pub Stops : ℕ → ℕ → Scheduler E W → Ending → Type 0
  Stops steps n t success = (t.cancelled ≡ true) ⊎ ((t.events ≡ []) ⊎ (n ≡ steps))
  Stops steps n t time_limit = (0 < t.max_time) × (t.max_time ≤ t.cur_time)
  Stops steps n t (failed c) = c ≢ 0

  module _ (callback : E → W → Reaction E W) where
    -- A run that returned, after at most `steps` events.
    record Ended (steps : ℕ) (s : Scheduler E W) (o : Option (Scheduler E W × Ending))
        : Type 0 where
      last : Scheduler E W
      ending : Ending
      count : ℕ
      returns : o ≡ some (last, ending)
      counts : length last.processed ≡ length s.processed + count
      bounded : count ≤ steps
      stops : Stops steps count last ending

    called-processed :
        (e : E) (es : List E) (s : Scheduler E W)
        → length (called callback e es s).processed ≡ length s.processed + 1
    called-processed e es s =
        ap length (post_all-processed (callback e s.world).posts (popped callback e es s))
        ∙ length-append s.processed (e ∷ [])

    one_more :
        (k : ℕ) (v s : Scheduler E W) (o : Option (Scheduler E W × Ending))
        → length v.processed ≡ length s.processed + 1
        → Ended k v o
        → Ended (suc k) s o
    one_more k v s o h d = record {
      last = d.last;
      ending = d.ending;
      count = suc d.count;
      returns = d.returns;
      counts = omega (arith, d.counts, h);
      bounded = omega (arith, d.bounded);
      stops = more d.ending d.stops;
    }
      where
        more : (x : Ending) → Stops k d.count d.last x → Stops (suc k) (suc d.count) d.last x
        more success (inl c) = inl c
        more success (inr (inl e)) = inr (inl e)
        more success (inr (inr q)) = inr (inr (ap suc q))
        more time_limit q = q
        more (failed c) q = q

    up :
        (v : Scheduler E W)
        → time_is_up callback v ≡ true
        → (0 < v.max_time) × (v.max_time ≤ v.cur_time)
    up v e = (ground (arith, e), ground (arith, e))

    iteration :
        (fuel k : ℕ) (s : Scheduler E W)
        → ((u : Scheduler E W) → (k ≡ 0) ⊎ Ended k u (run_loop callback fuel (suc k - 1) u))
        → Ended (suc k) s (run_loop callback (suc fuel) (suc k) s)
    unfolding run_loop
    iteration fuel k s rest = go s.cancelled refl s.events refl
      where
        nothing : (s.cancelled ≡ true) ⊎ (s.events ≡ []) → Ended (suc k) s (some (s, success))
        nothing w = record {
          last = s;
          ending = success;
          count = 0;
          returns = refl;
          counts = omega arith;
          bounded = omega arith;
          stops = elim w [ inl c ↦ inl c | inr e ↦ inr (inl e) ];
        }

        go :
            (c : Bool)
            → s.cancelled ≡ c
            → (es : List E) → s.events ≡ es
            → Ended (suc k) s (elim c [
              | true ↦ some (s, success)
              | false ↦ elim es [
                | [] ↦ some (s, success)
                | f ∷ fs ↦ elim ((callback f s.world).code == 0) [
                  | false ↦ some (called callback f fs s, failed (callback f s.world).code)
                  | true ↦ elim (time_is_up callback (ticked callback (called callback f fs s))) [
                    | true ↦ some (ticked callback (called callback f fs s), time_limit)
                    | false ↦ elim (suc k == 1) [
                      | true ↦ some (ticked callback (called callback f fs s), success)
                      | false ↦
                          run_loop callback fuel
                            (suc k - 1)
                            (ticked callback (called callback f fs s))
                    ]
                  ]
                ]
              ]
            ])
        go true p es q = nothing (inl p)
        go false p [] q = nothing (inr q)
        go false p (f ∷ fs) q =
            event ((callback f s.world).code == 0) refl
              (time_is_up callback (ticked callback (called callback f fs s))) refl (suc k == 1)
              refl
          where
            v : Scheduler E W
            v = called callback f fs s

            one :
                (t : Scheduler E W) (x : Ending)
                → length t.processed ≡ length s.processed + 1
                → Stops (suc k) 1 t x
                → Ended (suc k) s (some (t, x))
            one t x c w = record {
              last = t;
              ending = x;
              count = 1;
              returns = refl;
              counts = c;
              bounded = omega arith;
              stops = w;
            }

            event :
                (a : Bool)
                → ((callback f s.world).code == 0) ≡ a
                → (b : Bool) → time_is_up callback (ticked callback v) ≡ b
                → (c : Bool) → (suc k == 1) ≡ c
                → Ended (suc k) s (elim a [
                  | false ↦ some (v, failed (callback f s.world).code)
                  | true ↦ elim b [
                    | true ↦ some (ticked callback v, time_limit)
                    | false ↦ elim c [
                      | true ↦ some (ticked callback v, success)
                      | false ↦ run_loop callback fuel (suc k - 1) (ticked callback v)
                    ]
                  ]
                ])
            event false x b y c z =
                one v (failed (callback f s.world).code) (called-processed f fs s)
                  (ground (arith, x))
            event true x true y c z =
                one (ticked callback v) time_limit (called-processed f fs s)
                  (up (ticked callback v) y)
            event true x false y true z =
                one (ticked callback v) success (called-processed f fs s)
                  (inr (inr (ground (arith, z))))
            event true x false y false z = elim (rest (ticked callback v)) [
              | inl e ↦ absurd (ground (arith, z, e))
              | inr d ↦
                  one_more k (ticked callback v) s
                    (run_loop callback fuel (suc k - 1) (ticked callback v))
                    (called-processed f fs s) d
            ]

    run_loop-Ended :
        (fuel k : ℕ) (s : Scheduler E W)
        → k < fuel
        → Ended (suc k) s (run_loop callback fuel (suc k) s)
    run_loop-Ended zero k s l = absurd (omega (arith, l))
    run_loop-Ended (suc fuel) zero s l = iteration fuel zero s (λ u. inl refl)
    run_loop-Ended (suc fuel) (suc k) s l = iteration fuel (suc k) s (λ u. inr (
        subst (λ n. Ended (suc k) u (run_loop callback fuel n u)) (less k)
          (run_loop-Ended fuel k u (omega (arith, l)))))
      where
        less : (n : ℕ) → suc n ≡ suc (suc n) - 1
        less n = omega arith

    -- A run with a limit of at least one step ends, if it may take that many steps: it processes no
    -- more events than the limit says, and ends because it was cancelled, because no event is left,
    -- because the limit is reached, because the time limit of the simulator is, or because a callback
    -- failed.
    pub run-ends :
        (fuel steps : ℕ) (s : Scheduler E W)
        → 0 < steps
        → steps ≤ fuel
        → (t : Scheduler E W) × (x : Ending) × (n : ℕ) × (run callback fuel steps s ≡ some (t, x))
          × (length t.processed ≡ length s.processed + n)
          × (n ≤ steps)
          × Stops steps n t x
    unfolding run
    run-ends fuel zero s h l = absurd (omega (arith, h))
    run-ends fuel (suc k) s h l =
        let d = run_loop-Ended fuel k (record s { cancelled = false }) (omega (arith, l)) in
        (d.last, d.ending, d.count, d.returns, d.counts, d.bounded, d.stops)
