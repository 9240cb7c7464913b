-- ===== src/Filter/Predicate/Rounds.antt =====
-- The loop of src/bgp/filter/predicate_parser.c ends, on every text.
use cbgp.Base.{
  ℕ, zero, suc, ◌<◌, ◌≡◌, refl, ap, arith, Bool, Option, none, some, List, length, ◌>>=◌,
}
use cbgp.Filter.{Matcher}
use cbgp.Filter.Predicate.{
  no_token, eof, atom, not_token, and_token, or_token, par_open, par_close, ParserState,
  wait_unary_op, wait_binary_op, wait_arg, Code, success, Lexed, token, predicate, failed, get,
  Parser, Outcome, with_left, step, run,
}
use cbgp.Filter.Predicate.Consumed.{Shorter, get-Shorter}

-- What one turn of the loop does: it leaves the loop with an outcome, which is `none` for an abort, or
-- it goes on with the rest of the text.
pub data Turn : Type 0 where
  leaves : Outcome → Turn
  goes_on : List ℕ → Parser → Turn

abbrev pub turn_behind : List ℕ → Outcome → Turn
turn_behind rest none = leaves none
turn_behind rest (some (success, q)) = goes_on rest q
turn_behind rest (some (c, q)) = leaves (some (c, q))

-- The end of the text leaves the loop in every state.
abbrev Stops : Outcome → Type 0
Stops none = Unit
Stops (some (success, p)) = ⊥
Stops (some (_, p)) = Unit

eof-Stops : (fits : ℕ → Bool) (p : Parser) → Stops (step fits eof p)
unfolding step
eof-Stops fits p = go p.state
  where
    go : (s : ParserState) → Stops (step fits eof (record p { state = s }))
    go wait_unary_op = tt
    go wait_binary_op = tt
    go wait_arg = tt

module _ (parse_atom : List ℕ → Option (Option Matcher)) (fits : ℕ → Bool) where
  abbrev pub turn_with : Parser → Lexed → Turn
  turn_with p (failed c) = leaves (some (c, p))
  turn_with p (token t rest) = turn_behind rest (step fits t p)
  turn_with p (predicate m rest) = turn_behind rest (step fits atom (with_left p m))

  -- The loop, which does not count its turns, leaves within n turns, with this outcome.
  pub data Ends : ℕ → List ℕ → Parser → Outcome → Type 0 where
    last :
        {n : ℕ} {text : List ℕ} {p : Parser} {o : Outcome}
        → turn_with p (get parse_atom text) ≡ leaves o
        → Ends (suc n) text p o
    next :
        {n : ℕ} {text : List ℕ} {p : Parser} {rest : List ℕ} {q : Parser} {o : Outcome}
        → turn_with p (get parse_atom text) ≡ goes_on rest q
        → Ends n rest q o
        → Ends (suc n) text p o

  ends_within :
      (n f : ℕ) (text : List ℕ) (p : Parser)
      → length text < n
      → length text < f
      → Ends n text p (run fits parse_atom f text p)
  unfolding run
  ends_within zero f text p h k = absurd (omega arith)
  ends_within n zero text p h k = absurd (omega arith)
  ends_within (suc n) (suc f) text p h k =
      go (get parse_atom text) (get-Shorter parse_atom text) refl
        (λ rest q a b. ends_within n f rest q a b)
    where
      Later : List ℕ → Type 0
      Later rest = (q : Parser) → Ends n rest q (run fits parse_atom f rest q)

      onwards : List ℕ → Code × Parser → Outcome
      onwards rest r = elim r.0 [ success ↦ run fits parse_atom f rest r.1 | c ↦ some (c, r.1) ]

      continued :
          (o : Outcome) (rest : List ℕ)
          → turn_with p (get parse_atom text) ≡ turn_behind rest o
          → Later rest
          → Ends (suc n) text p (o >>= onwards rest)
      continued none rest e s = last e
      continued (some (success, q)) rest e s = next e (s q)
      continued (some (c, q)) rest e s = last e

      stopped :
          (o : Outcome) (rest : List ℕ)
          → turn_with p (get parse_atom text) ≡ turn_behind rest o
          → Stops o
          → Ends (suc n) text p (o >>= onwards rest)
      stopped none rest e s = last e
      stopped (some (success, q)) rest e s = absurd s
      stopped (some (c, q)) rest e s = last e

      round : Lexed → Outcome
      round x = elim x [
        | failed c ↦ some (c, p)
        | token t rest ↦ step fits t p >>= λ r. onwards rest r
        | predicate m rest ↦ step fits atom (with_left p m) >>= λ r. onwards rest r
      ]

      go :
          (x : Lexed)
          → Shorter (length text) x
          → get parse_atom text ≡ x
          → ((rest : List ℕ) (q : Parser)
              → length rest < n
              → length rest < f
              → Ends n rest q (run fits parse_atom f rest q))
          → Ends (suc n) text p (round x)
      go (failed c) s e ih = last (ap (turn_with p) e)
      go (predicate m rest) s e ih =
          continued (step fits atom (with_left p m)) rest (ap (turn_with p) e)
            (λ q. ih rest q (omega arith) (omega arith))
      go (token eof rest) s e ih =
          stopped (step fits eof p) rest (ap (turn_with p) e) (eof-Stops fits p)
      go (token no_token rest) s e ih =
          continued (step fits no_token p) rest (ap (turn_with p) e)
            (λ q. ih rest q (omega arith) (omega arith))
      go (token atom rest) s e ih =
          continued (step fits atom p) rest (ap (turn_with p) e)
            (λ q. ih rest q (omega arith) (omega arith))
      go (token not_token rest) s e ih =
          continued (step fits not_token p) rest (ap (turn_with p) e)
            (λ q. ih rest q (omega arith) (omega arith))
      go (token and_token rest) s e ih =
          continued (step fits and_token p) rest (ap (turn_with p) e)
            (λ q. ih rest q (omega arith) (omega arith))
      go (token or_token rest) s e ih =
          continued (step fits or_token p) rest (ap (turn_with p) e)
            (λ q. ih rest q (omega arith) (omega arith))
      go (token par_open rest) s e ih =
          continued (step fits par_open p) rest (ap (turn_with p) e)
            (λ q. ih rest q (omega arith) (omega arith))
      go (token par_close rest) s e ih =
          continued (step fits par_close p) rest (ap (turn_with p) e)
            (λ q. ih rest q (omega arith) (omega arith))

  -- From every state and on every text, the loop of the parser leaves within one turn for each
  -- character of the text and one more, and its outcome is what the loop on fuel gives, with any fuel
  -- above the length of the text.
  pub run-Ends :
      (f : ℕ) (text : List ℕ) (p : Parser)
      → length text < f
      → Ends (suc (length text)) text p (run fits parse_atom f text p)
  run-Ends f text p h = ends_within (suc (length text)) f text p (omega arith) h
