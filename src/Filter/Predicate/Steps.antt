-- ===== src/Filter/Predicate/Steps.antt =====
-- The rounds of the loop of src/bgp/filter/predicate_parser.c, one for each token.
use cbgp.Base.{
  ℕ, suc, ◌≡◌, refl, arith, Bool, true, false, not, ◌||◌, Option, none, some, List, [], ◌∷◌, ◌++◌,
  length, ◌==◌, if◌then◌else◌,
}
use cbgp.Filter.{Matcher}
use cbgp.Filter.Predicate.{
  Token, not_token, and_token, or_token, par_open, par_close, ParserState, wait_unary_op,
  wait_binary_op, wait_arg, Code, success, Item, Parser, get_atom, get, atom_read, push_state, step,
  run, predicate, token, block_ends,
}
use cbgp.Filter.Predicate.Blocks.{IsWaiting, unwind, at, atom_read-unwind, close-unwind}
use cbgp.Filter.Predicate.Syntax.{atom, GoodArgument, starts_atom, stops, atom_text-whole}

-- The state in which an argument is waited for.
abbrev pub Waits : ParserState → Type 0
Waits wait_unary_op = Unit
Waits wait_arg = Unit
Waits wait_binary_op = ⊥

-- What push_state leaves on the stack.
abbrev pub waiting : Token → Option Matcher → List Item → List Item
waiting t l s = record { cmd = t; left_predicate = l } ∷ s

pub unwind-block_ends :
    (m : Option Matcher) (s : List Item) → block_ends s ≡ true → unwind m s ≡ some (m, s)
unwind-block_ends m [] h = refl
unwind-block_ends m (i ∷ s) h = go i.cmd h
  where
    go :
        (c : Token)
        → block_ends (waiting c i.left_predicate s) ≡ true
        → unwind m (waiting c i.left_predicate s) ≡ some (m, waiting c i.left_predicate s)
    go par_open h = refl
    go _ h = absurd (cc)

module _ (fits : ℕ → Bool) (parse_atom : List ℕ → Option (Option Matcher)) where
  -- From one state and text the loop comes to another.
  abbrev pub Comes : ℕ → List ℕ → Parser → ℕ → List ℕ → Parser → Type 0
  Comes f text p g rest q = run fits parse_atom f text p ≡ run fits parse_atom g rest q

  get-atom :
      (text rest : List ℕ) (m : Option Matcher)
      → starts_atom text ≡ true
      → get_atom parse_atom (text ++ rest) ≡ predicate m rest
      → get parse_atom (text ++ rest) ≡ predicate m rest
  unfolding get
  get-atom [] rest m s e = absurd (cc)
  get-atom (c ∷ text) rest m s e =
      tests (c == b'!') (c == b'&') (c == b'|') (c == b'(') (c == b')') (c == b' ') (c == b'\t') s
    where
      tests :
          (n a o l r b t : Bool)
          → not ((r || a || o || n) || (l || (b || t))) ≡ true
          → (if n
              then token not_token (text ++ rest)
              else if a
              then token and_token (text ++ rest)
              else (if o
                  then token or_token (text ++ rest)
                  else if l
                  then token par_open (text ++ rest)
                  else (if r
                      then token par_close (text ++ rest)
                      else if b || t
                      then get parse_atom (text ++ rest)
                      else get_atom parse_atom (c ∷ (text ++ rest)))))
            ≡ predicate m rest
      tests false false false false false false false h = e
      tests true a o l r b t h = ground (arith, h)
      tests false true o l r b t h = ground (arith, h)
      tests false false true l r b t h = ground (arith, h)
      tests false false false true r b t h = ground (arith, h)
      tests false false false false true b t h = ground (arith, h)
      tests false false false false false true t h = ground (arith, h)
      tests false false false false false false true h = ground (arith, h)

  lexed :
      (text rest : List ℕ) (m : Option Matcher)
      → GoodArgument (atom text)
      → stops rest ≡ true
      → parse_atom text ≡ some m
      → get_atom parse_atom (text ++ rest) ≡ predicate m rest
  unfolding get_atom
  lexed text rest m g h e = rw (atom_text-whole false text rest g.1 h, e, get_atom) refl

  push-fits :
      (cmd : Token) (code : Code) (next : ParserState) (p : Parser)
      → fits (length p.stack) ≡ true
      → push_state fits cmd code next p
        ≡ some (
          success,
          at next none (record { cmd = cmd; left_predicate = p.left_predicate } ∷ p.stack),
        )
  push-fits cmd code next p h = rw h refl

  pub atom-Comes :
      (f : ℕ) (st : ParserState) (text rest : List ℕ) (l m n : Option Matcher) (s s' : List Item)
      → Waits st
      → GoodArgument (atom text)
      → stops rest ≡ true
      → IsWaiting s
      → parse_atom text ≡ some m
      → unwind m s ≡ some (n, s')
      → Comes (suc f) (text ++ rest) (at st l s) f rest (at wait_binary_op n s')
  unfolding run step
  atom-Comes f st text rest l m n s s' w g h k e u =
      rw
        (
          get-atom text rest m g.0 (lexed text rest m g h e),
          stepped st w,
          atom_read-unwind st m s k,
          u,
          run,
        )
        refl
    where
      stepped : (x : ParserState) → Waits x → step fits Token.atom (at x m s) ≡ atom_read (at x m s)
      stepped wait_unary_op v = refl
      stepped wait_arg v = refl
      stepped wait_binary_op v = absurd v

  pub open-Comes :
      (f : ℕ) (st : ParserState) (text : List ℕ) (l : Option Matcher) (s : List Item)
      → Waits st
      → fits (length s) ≡ true
      → Comes
          (suc f)
          (b'(' ∷ text)
          (at st l s)
          f
          text
          (at wait_unary_op none (waiting par_open l s))
  unfolding run step get
  open-Comes f wait_unary_op text l s w h = rw h refl
  open-Comes f wait_arg text l s w h = rw h refl
  open-Comes f wait_binary_op text l s w h = absurd w

  pub not-Comes :
      (f : ℕ) (text : List ℕ) (l : Option Matcher) (s : List Item)
      → fits (length s) ≡ true
      → Comes
          (suc f)
          (b'!' ∷ text)
          (at wait_unary_op l s)
          f
          text
          (at wait_arg none (waiting not_token l s))
  unfolding run step get
  not-Comes f text l s h = rw h refl

  pub and-Comes :
      (f : ℕ) (text : List ℕ) (l : Option Matcher) (s : List Item)
      → fits (length s) ≡ true
      → Comes
          (suc f)
          (b'&' ∷ text)
          (at wait_binary_op l s)
          f
          text
          (at wait_unary_op none (waiting and_token l s))
  unfolding run step get
  and-Comes f text l s h = rw h refl

  pub or-Comes :
      (f : ℕ) (text : List ℕ) (l : Option Matcher) (s : List Item)
      → fits (length s) ≡ true
      → Comes
          (suc f)
          (b'|' ∷ text)
          (at wait_binary_op l s)
          f
          text
          (at wait_unary_op none (waiting or_token l s))
  unfolding run step get
  or-Comes f text l s h = rw h refl

  pub close-Comes :
      (f : ℕ) (text : List ℕ) (l m n : Option Matcher) (s s' : List Item)
      → IsWaiting s
      → unwind m s ≡ some (n, s')
      → Comes
          (suc f)
          (b')' ∷ text)
          (at wait_binary_op m (waiting par_open l s))
          f
          text
          (at wait_binary_op n s')
  unfolding run step get
  close-Comes f text l m n s s' k u = rw (close-unwind l m s k, u, run) refl
