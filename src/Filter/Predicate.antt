-- ===== src/Filter/Predicate.antt =====
-- The parser of predicates, src/bgp/filter/predicate_parser.c: a state machine with a stack of the
-- operations whose right operand is not read yet. The static struct _parser is passed on; its
-- fields column and atom_error, which only messages read, are left out. `none` is an abort.
--
-- Parameters: `fits` tells whether stack_push of libgds takes an item at the given depth, and
-- `parse_atom` is ft_registry_predicate_parser, the command parser of libgds: `none` is an error.
pub mod Blocks
pub mod Syntax
pub mod Steps
pub mod RoundTrip
pub mod Meaning
pub mod Consumed
pub mod StackRounds
pub mod Rounds
use cbgp.Base.{
  ℕ, zero, suc, ◌+◌, Bool, true, false, not, ◌&&◌, ◌||◌, Option, none, some, List, [], ◌∷◌, length,
  ◌==◌, if◌then◌else◌, ◌>>=◌,
}
use cbgp.Filter.{Matcher, filter_match_and, filter_match_or, filter_match_not}

-- parser_token_t.
pub data Token : Type 0 where
  no_token eof atom not_token and_token or_token par_open par_close : Token

-- parser_state_t.
pub data ParserState : Type 0 where
  wait_unary_op wait_binary_op wait_arg : ParserState

-- The codes PREDICATE_PARSER_*.
pub data Code : Type 0 where
  end success unexpected unfinished_string atom_error unexpected_eof left_expr : Code
  par_mismatch state_too_large unary_op : Code

abbrev pub is_error : Code → Bool
is_error end = false
is_error success = false
is_error _ = true

-- _parser_stack_item_t.
pub record Item : Type 0 where
  pub cmd : Token
  pub left_predicate : Option Matcher

pub record Parser : Type 0 where
  pub state : ParserState
  pub cmd : Token
  pub left_predicate : Option Matcher
  pub right_predicate : Option Matcher
  pub stack : List Item

abbrev pub init : Parser
init = record {
  state = wait_unary_op;
  cmd = no_token;
  left_predicate = none;
  right_predicate = none;
  stack = [];
}

abbrev pub is_par_open : Token → Bool
is_par_open par_open = true
is_par_open _ = false

-- The characters of ")&|!".
abbrev pub is_special : ℕ → Bool
is_special c = c == b')' || c == b'&' || c == b'|' || c == b'!'

-- The loop of _predicate_parser_get_atom: the text of the atom, and what follows. `none` is the end
-- of the text within quotes.
unfoldable pub atom_text : Bool → List ℕ → Option (List ℕ × List ℕ)
atom_text quoted [] = if quoted then none else some ([], [])
atom_text quoted (c ∷ text) =
    let rest = atom_text (if c == b'"' then not quoted else quoted) text in
    if not quoted && is_special c then some ([], c ∷ text) else (rest >>= λ s. some (c ∷ s.0, s.1))

-- What _predicate_parser_get gives: a token, the predicate of an atom, and the text behind it.
pub data Lexed : Type 0 where
  token : Token → List ℕ → Lexed
  predicate : Option Matcher → List ℕ → Lexed
  failed : Code → Lexed

module _ (parse_atom : List ℕ → Option (Option Matcher)) where
  unfoldable pub get_atom : List ℕ → Lexed
  unfolding atom_text
  get_atom text = elim (atom_text false text) [
    | none ↦ failed unfinished_string
    | some s ↦ elim (parse_atom s.0) [ none ↦ failed atom_error | some m ↦ predicate m s.1 ]
  ]

  unfoldable pub get : List ℕ → Lexed
  get [] = token eof []
  get (c ∷ text) =
      let later = get text in
      if c == b'!'
      then token not_token text
      else if c == b'&'
      then token and_token text
      else (if c == b'|'
          then token or_token text
          else if c == b'('
          then token par_open text
          else (if c == b')'
              then token par_close text
              else if c == b' ' || c == b'\t'
              then later
              else get_atom (c ∷ text)))

-- What a step returns, with the state it leaves.
abbrev pub Outcome : Type 0
Outcome = Option (Code × Parser)

abbrev pub with_left : Parser → Option Matcher → Parser
with_left p m = record p { left_predicate = m }

-- The assertion that the stack is not empty fails on an empty one.
abbrev pub pop_state : Parser → Option Parser
pop_state p = elim p.stack [
  | [] ↦ none
  | item ∷ rest ↦ some (record {
    state = wait_binary_op;
    cmd = item.cmd;
    left_predicate = item.left_predicate;
    right_predicate = p.left_predicate;
    stack = rest;
  })
]

-- The case TOKEN_PARCLOSE of the switch.
abbrev pub close_block : Parser → Outcome
close_block p = elim p.stack [
  | [] ↦ some (par_mismatch, p)
  | _ ↦ pop_state p >>= λ q.
      if is_par_open q.cmd
      then some (success, with_left q q.right_predicate)
      else some (par_mismatch, q)
]

-- The switch of _predicate_parser_apply_block_ops.
unfoldable pub apply_op : Parser → Outcome
apply_op p = elim p.cmd [
  | no_token ↦ some (success, p)
  | and_token ↦
      filter_match_and p.left_predicate p.right_predicate >>= λ m. some (success, with_left p m)
  | not_token ↦ filter_match_not p.right_predicate >>= λ m. some (success, with_left p m)
  | or_token ↦
      filter_match_or p.left_predicate p.right_predicate >>= λ m. some (success, with_left p m)
  | par_close ↦ close_block p
  | _ ↦ none
]

abbrev pub cleared : Parser → Parser
cleared p = record p { cmd = no_token; right_predicate = none }

-- The block ends where the stack is empty or has an opening parenthesis on top.
abbrev pub block_ends : List Item → Bool
block_ends [] = true
block_ends (item ∷ rest) = is_par_open item.cmd

-- The loop of _predicate_parser_apply_block_ops.
unfoldable pub block_ops : ℕ → Parser → Outcome
unfolding apply_op
block_ops zero p = none
block_ops (suc fuel) p = apply_op p >>= λ r. elim (is_error r.0) [
  | true ↦ some r
  | false ↦ elim (block_ends (cleared r.1).stack) [
    | true ↦ some (success, cleared r.1)
    | false ↦ pop_state (cleared r.1) >>= λ q. block_ops fuel q
  ]
]

unfoldable pub apply_block_ops : Parser → Outcome
unfolding block_ops
apply_block_ops p = block_ops (suc (length p.stack)) p

-- The case TOKEN_ATOM: the code of _predicate_parser_apply_block_ops is not looked at.
abbrev pub atom_read : Parser → Outcome
unfolding apply_block_ops
atom_read p = apply_block_ops (record p { cmd = no_token }) >>= λ r.
    some (success, record (r.1) { state = wait_binary_op })

module _ (fits : ℕ → Bool) where
  -- The code behind a push that fails is `code`; otherwise the state is `next`.
  abbrev pub push_state : Token → Code → ParserState → Parser → Outcome
  push_state cmd code next p =
      if fits (length p.stack)
      then some (
        success,
        record {
          state = next;
          cmd = no_token;
          left_predicate = none;
          right_predicate = none;
          stack = record { cmd = cmd; left_predicate = p.left_predicate } ∷ p.stack;
        },
      )
      else some (code, p)

  unfoldable pub unary_op_step : Token → Parser → Outcome
  unfolding apply_block_ops
  unary_op_step atom p = atom_read p
  unary_op_step eof p = some (unexpected_eof, p)
  unary_op_step not_token p = push_state not_token state_too_large wait_arg p
  unary_op_step par_close p = some (unexpected, p)
  unary_op_step par_open p = push_state par_open state_too_large wait_unary_op p
  unary_op_step and_token p = some (left_expr, p)
  unary_op_step or_token p = some (left_expr, p)
  unary_op_step no_token p = none

  unfoldable pub binary_op_step : Token → Parser → Outcome
  unfolding apply_block_ops
  binary_op_step and_token p = push_state and_token unexpected wait_unary_op p
  binary_op_step or_token p = push_state or_token unexpected wait_unary_op p
  binary_op_step atom p = some (unexpected, p)
  binary_op_step eof p = some (end, p)
  binary_op_step not_token p = some (unary_op, p)
  binary_op_step par_close p = apply_block_ops (record p { cmd = par_close })
  binary_op_step par_open p = some (unexpected, p)
  binary_op_step no_token p = none

  -- A closing parenthesis has no case here and aborts.
  unfoldable pub arg_step : Token → Parser → Outcome
  unfolding apply_block_ops
  arg_step atom p = atom_read p
  arg_step and_token p = some (unexpected, p)
  arg_step or_token p = some (unexpected, p)
  arg_step not_token p = some (unary_op, p)
  arg_step eof p = some (unexpected_eof, p)
  arg_step par_open p = push_state par_open state_too_large wait_unary_op p
  arg_step par_close p = none
  arg_step no_token p = none

  -- The switch of predicate_parser.
  unfoldable pub step : Token → Parser → Outcome
  unfolding unary_op_step binary_op_step arg_step
  step t p = elim p.state [
    | wait_unary_op ↦ unary_op_step t p
    | wait_binary_op ↦ binary_op_step t p
    | wait_arg ↦ arg_step t p
  ]

-- The result of predicate_parser: the predicate given back by reference, or an error.
pub data Answer : Type 0 where
  parsed : Option Matcher → Answer
  refused : Code → Answer

abbrev pub finish : Code × Parser → Answer
finish (c, p) =
    if is_error c
    then refused c
    else elim p.stack [ [] ↦ parsed p.left_predicate | _ ↦ refused par_mismatch ]

module _ (fits : ℕ → Bool) (parse_atom : List ℕ → Option (Option Matcher)) where
  -- The loop of predicate_parser. The fuel bounds its rounds.
  unfoldable pub run : ℕ → List ℕ → Parser → Outcome
  run zero text p = none
  run (suc fuel) text p = elim (get parse_atom text) [
    | failed c ↦ some (c, p)
    | token t rest ↦
        step fits t p >>= λ r. elim r.0 [ success ↦ run fuel rest r.1 | c ↦ some (c, r.1) ]
    | predicate m rest ↦ step fits atom (with_left p m) >>= λ r. elim r.0 [
      | success ↦ run fuel rest r.1
      | c ↦ some (c, r.1)
    ]
  ]

  unfoldable pub predicate_parser : List ℕ → Option Answer
  unfolding run
  predicate_parser text = run (suc (length text)) text init >>= λ r. some (finish r)
