-- ===== src/Filter/Predicate/Blocks.antt =====
-- The operations that wait on the stack for their right operand, src/bgp/filter/predicate_parser.c.
use cbgp.Base.{
  ℕ, zero, suc, ◌≤◌, ◌≡◌, refl, ap, ◌∙◌, arith, true, false, Option, none, some, List, [], ◌∷◌,
  length, All, ◌>>=◌,
}
use cbgp.Filter.{Matcher, filter_match_and, filter_match_or, filter_match_not}
use cbgp.Filter.Predicate.{
  Token, no_token, eof, atom, not_token, and_token, or_token, par_open, par_close, ParserState,
  wait_binary_op, Code, success, Item, Parser, Outcome, is_error, cleared, with_left, pop_state,
  block_ends, apply_op, block_ops, apply_block_ops, atom_read,
}

-- What push_state puts on the stack.
abbrev pub IsPending : Token → Type 0
IsPending and_token = Unit
IsPending or_token = Unit
IsPending not_token = Unit
IsPending par_open = Unit
IsPending _ = ⊥

abbrev pub IsWaiting : List Item → Type 0
IsWaiting s = All (λ (i : Item). IsPending i.cmd) s

-- The operations of the block on top of the stack, applied one after the other.
abbrev pub unwind : Option Matcher → List Item → Option (Option Matcher × List Item)
unwind m [] = some (m, [])
unwind m (item ∷ rest) = elim item.cmd [
  | and_token ↦ filter_match_and item.left_predicate m >>= λ n. unwind n rest
  | or_token ↦ filter_match_or item.left_predicate m >>= λ n. unwind n rest
  | not_token ↦ filter_match_not m >>= λ n. unwind n rest
  | par_open ↦ some (m, item ∷ rest)
  | _ ↦ none
]

-- A state between two tokens.
abbrev pub at : ParserState → Option Matcher → List Item → Parser
at st m s = record {
  state = st;
  cmd = no_token;
  left_predicate = m;
  right_predicate = none;
  stack = s;
}

abbrev pub settled : Option Matcher × List Item → Outcome
settled q = some (success, at wait_binary_op q.0 q.1)

-- The loop behind the switch.
abbrev next_round : ℕ → Code × Parser → Outcome
next_round fuel r = elim (is_error r.0) [
  | true ↦ some r
  | false ↦ elim (block_ends (cleared r.1).stack) [
    | true ↦ some (success, cleared r.1)
    | false ↦ pop_state (cleared r.1) >>= λ q. block_ops fuel q
  ]
]

-- The rest of a round, behind the switch.
abbrev round_end : ℕ → Option Matcher → List Item → Outcome
round_end fuel m s = elim (block_ends s) [
  | true ↦ some (success, at wait_binary_op m s)
  | false ↦ pop_state (at wait_binary_op m s) >>= λ q. block_ops fuel q
]

round_end-unwind :
    (fuel : ℕ) (m : Option Matcher) (s : List Item)
    → length s ≤ fuel
    → IsWaiting s
    → round_end fuel m s ≡ (unwind m s >>= settled)
unfolding block_ops apply_op
round_end-unwind fuel m [] h w = refl
round_end-unwind zero m (item ∷ rest) h w = absurd (omega arith)
round_end-unwind (suc fuel) m (item ∷ rest) h w =
    go item.cmd w.0 (λ n. round_end-unwind fuel n rest (omega arith) w.1)
  where
    popped : Token → Option Matcher → Option Matcher → Parser
    popped c l r = record {
      state = wait_binary_op;
      cmd = c;
      left_predicate = l;
      right_predicate = r;
      stack = rest;
    }

    folded :
        (c : Token) (l r : Option Matcher) (o : Option (Option Matcher))
        → ((n : Option Matcher) → round_end fuel n rest ≡ (unwind n rest >>= settled))
        → ((o >>= λ n. some (success, with_left (popped c l r) n)) >>= next_round fuel)
          ≡ ((o >>= λ n. unwind n rest) >>= settled)
    folded c l r none ih = refl
    folded c l r (some n) ih = ih n

    go :
        (c : Token)
        → IsPending c
        → ((n : Option Matcher) → round_end fuel n rest ≡ (unwind n rest >>= settled))
        → round_end (suc fuel) m (record { cmd = c; left_predicate = item.left_predicate } ∷ rest)
          ≡ (unwind m (record { cmd = c; left_predicate = item.left_predicate } ∷ rest) >>= settled)
    go and_token u ih =
        folded and_token item.left_predicate m (filter_match_and item.left_predicate m) ih
    go or_token u ih =
        folded or_token item.left_predicate m (filter_match_or item.left_predicate m) ih
    go not_token u ih = folded not_token item.left_predicate m (filter_match_not m) ih
    go par_open u ih = refl
    go no_token u ih = absurd u
    go eof u ih = absurd u
    go atom u ih = absurd u
    go par_close u ih = absurd u

-- The predicate of an atom is the operand of all that waits in its block.
pub atom_read-unwind :
    (st : ParserState) (m : Option Matcher) (s : List Item)
    → IsWaiting s
    → atom_read (at st m s) ≡ (unwind m s >>= settled)
unfolding apply_block_ops block_ops apply_op
atom_read-unwind st m [] w = refl
atom_read-unwind st m (item ∷ rest) w =
    go item.cmd w.0 (round_end-unwind (suc (length rest)) m (item ∷ rest) (omega arith) w)
  where
    back : Outcome → Outcome
    back o = o >>= λ r. some (success, record (r.1) { state = wait_binary_op })

    restated : (o : Option (Option Matcher × List Item)) → back (o >>= settled) ≡ (o >>= settled)
    restated none = refl
    restated (some q) = refl

    go :
        (c : Token)
        → IsPending c
        → round_end
            (suc (length rest))
            m
            (record { cmd = c; left_predicate = item.left_predicate } ∷ rest)
          ≡ (unwind m (record { cmd = c; left_predicate = item.left_predicate } ∷ rest) >>= settled)
        → atom_read (at st m (record { cmd = c; left_predicate = item.left_predicate } ∷ rest))
          ≡ (unwind m (record { cmd = c; left_predicate = item.left_predicate } ∷ rest) >>= settled)
    go and_token u e =
        ap back e
        ∙ restated
            (unwind m (record { cmd = and_token; left_predicate = item.left_predicate } ∷ rest))
    go or_token u e =
        ap back e
        ∙ restated
            (unwind m (record { cmd = or_token; left_predicate = item.left_predicate } ∷ rest))
    go not_token u e =
        ap back e
        ∙ restated
            (unwind m (record { cmd = not_token; left_predicate = item.left_predicate } ∷ rest))
    go par_open u e = refl
    go no_token u e = absurd u
    go eof u e = absurd u
    go atom u e = absurd u
    go par_close u e = absurd u

-- A closing parenthesis makes the predicate behind the opening one such an operand.
pub close-unwind :
    (l m : Option Matcher) (s : List Item)
    → IsWaiting s
    → apply_block_ops (record {
      state = wait_binary_op;
      cmd = par_close;
      left_predicate = m;
      right_predicate = none;
      stack = record { cmd = par_open; left_predicate = l } ∷ s;
    })
      ≡ (unwind m s >>= settled)
unfolding apply_block_ops block_ops apply_op
close-unwind l m s w = round_end-unwind (suc (length s)) m s (omega arith) w
