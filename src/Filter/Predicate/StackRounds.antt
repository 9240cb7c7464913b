-- ===== src/Filter/Predicate/StackRounds.antt =====
-- The operations on the stack of src/bgp/filter/predicate_parser.c come to an end.
use cbgp.Base.{
  ℕ, zero, suc, ◌≤◌, ◌<◌, ◌≡◌, refl, ap, arith, Bool, true, false, Option, none, some, List, [],
  ◌∷◌, length, if◌then◌else◌, ◌>>=◌,
}
use cbgp.Filter.{Matcher, filter_match_and, filter_match_or, filter_match_not}
use cbgp.Filter.Predicate.{
  Token, no_token, eof, atom, not_token, and_token, or_token, par_open, par_close, wait_binary_op,
  Code, success, is_error, Item, Parser, Outcome, with_left, is_par_open, pop_state, close_block,
  apply_op, cleared, block_ends, block_ops, apply_block_ops,
}

-- No operation of the switch makes the stack longer.
abbrev NoLonger : ℕ → Outcome → Type 0
NoLonger n none = Unit
NoLonger n (some r) = length r.1.stack ≤ n

apply_op-NoLonger : (p : Parser) → NoLonger (length p.stack) (apply_op p)
unfolding apply_op
apply_op-NoLonger p = go p.cmd
  where
    built :
        (q : Parser) (o : Option (Option Matcher))
        → NoLonger (length q.stack) (o >>= λ m. some (success, with_left q m))
    built q none = tt
    built q (some m) = omega arith

    judged :
        (b : Bool) (n : ℕ) (q : Parser)
        → length q.stack ≤ n
        → NoLonger n (
            if b
            then some (success, with_left q q.right_predicate)
            else some (Code.par_mismatch, q))
    judged true n q h = h
    judged false n q h = h

    closed :
        (q : Parser) (s : List Item) → NoLonger (length s) (close_block (record q { stack = s }))
    closed q [] = omega arith
    closed q (item ∷ rest) =
        judged (is_par_open item.cmd) (suc (length rest))
          (record {
            state = wait_binary_op;
            cmd = item.cmd;
            left_predicate = item.left_predicate;
            right_predicate = q.left_predicate;
            stack = rest;
          })
          (omega arith)

    go : (c : Token) → NoLonger (length p.stack) (apply_op (record p { cmd = c }))
    go no_token = omega arith
    go and_token =
        built (record p { cmd = and_token }) (filter_match_and p.left_predicate p.right_predicate)
    go not_token = built (record p { cmd = not_token }) (filter_match_not p.right_predicate)
    go or_token =
        built (record p { cmd = or_token }) (filter_match_or p.left_predicate p.right_predicate)
    go par_close = closed (record p { cmd = par_close }) p.stack
    go eof = tt
    go atom = tt
    go par_open = tt

-- What one turn of the loop does: it leaves the loop with an outcome, which is `none` for an abort, or
-- it goes on with the state popped.
pub data BlockTurn : Type 0 where
  leaves : Outcome → BlockTurn
  goes_on : Parser → BlockTurn

abbrev pub popped : Option Parser → BlockTurn
popped none = leaves none
popped (some q) = goes_on q

abbrev pub unless_end : Bool → Parser → BlockTurn
unless_end true p = leaves (some (success, p))
unless_end false p = popped (pop_state p)

abbrev pub unless_error : Bool → Code × Parser → BlockTurn
unless_error true r = leaves (some r)
unless_error false r = unless_end (block_ends (cleared r.1).stack) (cleared r.1)

abbrev pub block_turn : Outcome → BlockTurn
block_turn none = leaves none
block_turn (some r) = unless_error (is_error r.0) r

-- The loop, which does not count its turns, leaves within n turns, with this outcome.
pub data BlockEnds : ℕ → Parser → Outcome → Type 0 where
  last :
      {n : ℕ} {p : Parser} {o : Outcome}
      → block_turn (apply_op p) ≡ leaves o
      → BlockEnds (suc n) p o
  next :
      {n : ℕ} {p q : Parser} {o : Outcome}
      → block_turn (apply_op p) ≡ goes_on q
      → BlockEnds n q o
      → BlockEnds (suc n) p o

ends_within :
    (n f : ℕ) (p : Parser) → length p.stack < n → length p.stack < f → BlockEnds n p (block_ops f p)
unfolding block_ops
ends_within zero f p h k = absurd (omega arith)
ends_within n zero p h k = absurd (omega arith)
ends_within (suc n) (suc f) p h k =
    go (apply_op p) (apply_op-NoLonger p) refl (λ q a b. ends_within n f q a b)
  where
    Later : Type 0
    Later = (u : Parser) → length u.stack < n → length u.stack < f → BlockEnds n u (block_ops f u)

    round : Code × Parser → Outcome
    round r = elim (is_error r.0) [
      | true ↦ some r
      | false ↦ elim (block_ends (cleared r.1).stack) [
        | true ↦ some (success, cleared r.1)
        | false ↦ pop_state (cleared r.1) >>= λ q. block_ops f q
      ]
    ]

    below :
        (q : Parser) (s : List Item)
        → length s ≤ length p.stack
        → block_turn (apply_op p) ≡ popped (pop_state (record q { stack = s }))
        → Later
        → BlockEnds (suc n) p (pop_state (record q { stack = s }) >>= λ u. block_ops f u)
    below q [] a e ih = last e
    below q (item ∷ rest) a e ih = next e (ih _ (omega arith) (omega arith))

    at_end :
        (b : Bool) (q : Parser)
        → length q.stack ≤ length p.stack
        → block_turn (apply_op p) ≡ unless_end b q
        → Later
        → BlockEnds
            (suc n)
            p
            (elim b [ true ↦ some (success, q) | false ↦ pop_state q >>= λ u. block_ops f u ])
    at_end true q a e ih = last e
    at_end false q a e ih = below q q.stack a e ih

    judged :
        (b : Bool) (r : Code × Parser)
        → length r.1.stack ≤ length p.stack
        → block_turn (apply_op p) ≡ unless_error b r
        → Later
        → BlockEnds (suc n) p (elim b [
          | true ↦ some r
          | false ↦ elim (block_ends (cleared r.1).stack) [
            | true ↦ some (success, cleared r.1)
            | false ↦ pop_state (cleared r.1) >>= λ q. block_ops f q
          ]
        ])
    judged true r a e ih = last e
    judged false r a e ih = at_end (block_ends r.1.stack) (cleared r.1) a e ih

    go :
        (o : Outcome)
        → NoLonger (length p.stack) o
        → apply_op p ≡ o
        → Later
        → BlockEnds (suc n) p (o >>= round)
    go none a e ih = last (ap block_turn e)
    go (some r) a e ih = judged (is_error r.0) r a (ap block_turn e) ih

-- The loop that applies the operations on the stack leaves within one turn for each item of the stack
-- and one more, and its outcome is that of apply_block_ops.
pub apply_block_ops-BlockEnds :
    (p : Parser) → BlockEnds (suc (length p.stack)) p (apply_block_ops p)
unfolding apply_block_ops
apply_block_ops-BlockEnds p =
    ends_within (suc (length p.stack)) (suc (length p.stack)) p (omega arith) (omega arith)
