-- ===== src/Scheduler.antt =====
-- The static scheduler, src/sim/static_scheduler.c: a queue of events that are processed in the order
-- in which they were posted. The queue of libgds grows as needed and is a list here, the first event
-- to be processed first; the progress log is left out.
--
-- Parameters: the contexts of events, the state of what they work on, and `callback`, which gives, for
-- an event, the new state, the events it posts, whether it cancels the run, and its error code, 0 for
-- ESUCCESS.
pub mod Order
pub mod Limits
use cbgp.Base.{
  ℕ, zero, suc, ◌+◌, ◌-◌, ◌%◌, ◌^◌, ◌≡◌, Bool, true, false, ◌&&◌, Option, none, some, List, [], ◌∷◌,
  ◌++◌, length, get_elem?, ltb, leb, ◌==◌, if◌then◌else◌,
}

-- sched_static_t, with the time limit of the simulator, a double there and a whole number here. `processed` and `posted` are histories that the
-- code does not keep.
pub record Scheduler (E W : Type 0) : Type 0 where
  pub world : W
  pub events : List E
  pub cancelled : Bool
  pub cur_time : ℕ
  pub max_time : ℕ
  pub processed : List E
  pub posted : List E

-- What a callback does.
pub record Reaction (E W : Type 0) : Type 0 where
  pub world : W
  pub posts : List E
  pub cancels : Bool
  pub code : ℕ

-- How a run ends: on an empty queue, a cancel or the limit on steps, on the time limit, or on the
-- error of a callback.
pub data Ending : Type 0 where
  success time_limit : Ending
  failed : ℕ → Ending

module _ {E W : Type 0} where
  abbrev pub post : E → Scheduler E W → Scheduler E W
  post e s = record s { events = s.events ++ e ∷ []; posted = s.posted ++ e ∷ [] }

  abbrev pub cancel : Scheduler E W → Scheduler E W
  cancel s = record s { cancelled = true }

  abbrev pub clear : Scheduler E W → Scheduler E W
  clear s = record s { events = [] }

  abbrev pub num_events : Scheduler E W → ℕ
  num_events s = length s.events

  abbrev pub event_at : Scheduler E W → ℕ → Option E
  event_at s i = get_elem? s.events i

  abbrev pub post_all : List E → Scheduler E W → Scheduler E W
  post_all [] s = s
  post_all (e ∷ es) s = post_all es (post e s)

  module _ (callback : E → W → Reaction E W) where
    -- An event that was popped, before its callback returns.
    abbrev pub popped : E → List E → Scheduler E W → Scheduler E W
    popped e es s = record s { events = es; processed = s.processed ++ e ∷ [] }

    abbrev pub called : E → List E → Scheduler E W → Scheduler E W
    called e es s =
        let r = callback e s.world in
        let t = post_all r.posts (popped e es s) in
        record t { world = r.world; cancelled = if r.cancels then true else t.cancelled }

    abbrev pub ticked : Scheduler E W → Scheduler E W
    ticked s = record s { cur_time = (s.cur_time + 1) % 2 ^ 32 }

    abbrev pub time_is_up : Scheduler E W → Bool
    time_is_up s = ltb 0 s.max_time && leb s.max_time s.cur_time

    -- The loop of _run, for at most `fuel` events; 0 steps are without a limit. `none` is fuel that
    -- is used up.
    unfoldable pub run_loop : ℕ → ℕ → Scheduler E W → Option (Scheduler E W × Ending)
    run_loop zero steps s = none
    run_loop (suc fuel) steps s = elim s.cancelled [
      | true ↦ some (s, success)
      | false ↦ elim s.events [
        | [] ↦ some (s, success)
        | e ∷ es ↦ elim ((callback e s.world).code == 0) [
          | false ↦ some (called e es s, failed (callback e s.world).code)
          | true ↦ elim (time_is_up (ticked (called e es s))) [
            | true ↦ some (ticked (called e es s), time_limit)
            | false ↦ elim (steps == 1) [
              | true ↦ some (ticked (called e es s), success)
              | false ↦ run_loop fuel (steps - 1) (ticked (called e es s))
            ]
          ]
        ]
      ]
    ]

    unfoldable pub run : ℕ → ℕ → Scheduler E W → Option (Scheduler E W × Ending)
    unfolding run_loop
    run fuel steps s = run_loop fuel steps (record s { cancelled = false })

    -- sim_run gives the -1 of the documentation as an unsigned int, sim_step a number of steps.
    abbrev pub all_steps : ℕ
    all_steps = 2 ^ 32 - 1
