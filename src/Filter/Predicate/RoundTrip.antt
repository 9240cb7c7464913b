-- ===== src/Filter/Predicate/RoundTrip.antt =====
-- What src/bgp/filter/predicate_parser.c makes of a printed expression.
use mathlib.Core.List.{append_assoc, append-nil}
use cbgp.Base.{
  ℕ, suc, ◌+◌, ◌≤◌, ◌<◌, ◌≡◌, refl, ap, sym, ◌∙◌, arith, Bool, true, Option, none, some, List, [],
  ◌∷◌, ◌++◌, length, length-append, ◌>>=◌, >>=-some,
}
use cbgp.Filter.{Matcher}
use cbgp.Filter.Predicate.{
  not_token, and_token, or_token, par_open, ParserState, wait_unary_op, wait_binary_op, wait_arg,
  Code, end, finish, Item, Parser, init, get, step, run, predicate_parser, parsed, block_ends,
}
use cbgp.Filter.Predicate.Blocks.{IsWaiting, unwind, at}
use cbgp.Filter.Predicate.Syntax.{
  Argument, atom, group, Term, plain, negated, Expression, single, and_also, or_else,
  print_argument, print_term, print, build_argument, build_term, build, max, depth_argument,
  depth_term, depth, GoodArgument, GoodTerm, GoodAtoms, stops,
}
use cbgp.Filter.Predicate.Steps.{
  Waits, waiting, Comes, atom-Comes, open-Comes, not-Comes, and-Comes, or-Comes, close-Comes,
  unwind-block_ends,
}

-- The rounds that the loop needs for an expression, on top of those in `f`.
mutual
  rounds_argument : Argument → ℕ → ℕ
  rounds_argument (atom text) f = suc f
  rounds_argument (group e) f = suc (rounds e (suc f))

  rounds_term : Term → ℕ → ℕ
  rounds_term (plain a) f = rounds_argument a f
  rounds_term (negated a) f = suc (rounds_argument a f)

  rounds : Expression → ℕ → ℕ
  rounds (single t) f = rounds_term t f
  rounds (and_also e t) f = rounds e (suc (rounds_term t f))
  rounds (or_else e t) f = rounds e (suc (rounds_term t f))

max-le : (a b n r : ℕ) → max a b + n ≤ r → (a + n ≤ r) × (b + n ≤ r)
max-le a b n r h = ground arith

-- The characters that take no round of their own.
mutual
  unfolding rounds_argument rounds_term rounds print_argument print_term print

  argument-rounds :
      (a : Argument)
      → GoodArgument a
      → (k : ℕ) × ((f : ℕ) → rounds_argument a f + k ≡ length (print_argument a) + f)
  argument-rounds (atom []) g = absurd (cc)
  argument-rounds (atom (c ∷ text)) g = (length text, λ f. omega arith)
  argument-rounds (group e) g =
      let (k, h) = expression-rounds e g in
      (k, λ f. omega (arith, h (suc f), length-append (print e) (b')' ∷ [])))

  term-rounds :
      (t : Term)
      → GoodTerm t
      → (k : ℕ) × ((f : ℕ) → rounds_term t f + k ≡ length (print_term t) + f)
  term-rounds (plain a) g = argument-rounds a g
  term-rounds (negated a) g = let (k, h) = argument-rounds a g in (k, λ f. omega (arith, h f))

  expression-rounds :
      (e : Expression) → GoodAtoms e → (k : ℕ) × ((f : ℕ) → rounds e f + k ≡ length (print e) + f)
  expression-rounds (single t) g = term-rounds t g
  expression-rounds (and_also e t) g =
      let (k, h) = expression-rounds e g.0 in
      let (j, i) = term-rounds t g.1 in
      (
        k + j,
        λ f.
            omega (
              arith,
              h (suc (rounds_term t f)),
              i f,
              length-append (print e) (b'&' ∷ print_term t),
            ),
      )
  expression-rounds (or_else e t) g =
      let (k, h) = expression-rounds e g.0 in
      let (j, i) = term-rounds t g.1 in
      (
        k + j,
        λ f.
            omega (
              arith,
              h (suc (rounds_term t f)),
              i f,
              length-append (print e) (b'|' ∷ print_term t),
            ),
      )

module _ (fits : ℕ → Bool) (parse_atom : List ℕ → Option (Option Matcher)) (room : ℕ)
    (below : (d : ℕ) → d < room → fits d ≡ true) where
  mutual
    unfolding rounds_argument rounds_term rounds print_argument print_term print build_argument
        build_term build depth_argument depth_term depth

    argument-Comes :
        (a : Argument) (f : ℕ) (st : ParserState) (rest : List ℕ) (l m n : Option Matcher)
        (s s' : List Item)
        → Waits st
        → GoodArgument a
        → stops rest ≡ true
        → IsWaiting s
        → depth_argument a + length s ≤ room
        → build_argument parse_atom a ≡ some m
        → unwind m s ≡ some (n, s')
        → Comes fits parse_atom
            (rounds_argument a f)
            (print_argument a ++ rest)
            (at st l s)
            f
            rest
            (at wait_binary_op n s')
    argument-Comes (atom text) f st rest l m n s s' w g h k d e u =
        atom-Comes fits parse_atom f st text rest l m n s s' w g h k e u
    argument-Comes (group e) f st rest l m n s s' w g h k d b u =
        open-Comes fits parse_atom (rounds e (suc f)) st ((print e ++ b')' ∷ []) ++ rest) l s w
          (below (length s) (omega arith))
        ∙ ap
            (λ (text : List ℕ).
              run fits parse_atom (rounds e (suc f)) text
                (at wait_unary_op none (waiting par_open l s)))
            (append_assoc (print e) (b')' ∷ []) rest)
        ∙ expression-Comes e (suc f) (b')' ∷ rest) none m (waiting par_open l s) g refl (tt, k) refl
            (omega arith) b
        ∙ close-Comes fits parse_atom f rest l m n s s' k u

    term-Comes :
        (t : Term) (f : ℕ) (rest : List ℕ) (l m n : Option Matcher) (s s' : List Item)
        → GoodTerm t
        → stops rest ≡ true
        → IsWaiting s
        → depth_term t + length s ≤ room
        → build_term parse_atom t ≡ some m
        → unwind m s ≡ some (n, s')
        → Comes fits parse_atom
            (rounds_term t f)
            (print_term t ++ rest)
            (at wait_unary_op l s)
            f
            rest
            (at wait_binary_op n s')
    term-Comes (plain a) f rest l m n s s' g h k d b u =
        argument-Comes a f wait_unary_op rest l m n s s' tt g h k d b u
    term-Comes (negated a) f rest l m n s s' g h k d b u =
        let (o, p, q) = >>=-some (build_argument parse_atom a) _ m b in
        not-Comes fits parse_atom (rounds_argument a f) (print_argument a ++ rest) l s
          (below (length s) (omega arith))
        ∙ argument-Comes a f wait_arg rest none o n (waiting not_token l s) s' tt g h (tt, k)
            (omega arith) p (rw q u)

    expression-Comes :
        (e : Expression) (f : ℕ) (rest : List ℕ) (l m : Option Matcher) (s : List Item)
        → GoodAtoms e
        → stops rest ≡ true
        → IsWaiting s
        → block_ends s ≡ true
        → depth e + length s ≤ room
        → build parse_atom e ≡ some m
        → Comes fits parse_atom
            (rounds e f)
            (print e ++ rest)
            (at wait_unary_op l s)
            f
            rest
            (at wait_binary_op m s)
    expression-Comes (single t) f rest l m s g h k x d b =
        term-Comes t f rest l m m s s g h k d b (unwind-block_ends m s x)
    expression-Comes (and_also e t) f rest l m s g h k x d b =
        let (o, p, y) = >>=-some (build parse_atom e) _ m b in
        let (q, r, z) = >>=-some (build_term parse_atom t) _ m y in
        let (d1, d2) = max-le (depth e) (depth_term t + 1) (length s) room d in
        ap
          (λ (text : List ℕ).
            run fits parse_atom (rounds e (suc (rounds_term t f))) text (at wait_unary_op l s))
          (append_assoc (print e) (b'&' ∷ print_term t) rest)
        ∙ expression-Comes e (suc (rounds_term t f)) (b'&' ∷ (print_term t ++ rest)) l o s g.0 refl
            k x d1 p
        ∙ and-Comes fits parse_atom (rounds_term t f) (print_term t ++ rest) o s
            (below (length s) (omega arith))
        ∙ term-Comes t f rest none q m (waiting and_token o s) s g.1 h (tt, k) (omega arith) r
            (rw z (unwind-block_ends m s x))
    expression-Comes (or_else e t) f rest l m s g h k x d b =
        let (o, p, y) = >>=-some (build parse_atom e) _ m b in
        let (q, r, z) = >>=-some (build_term parse_atom t) _ m y in
        let (d1, d2) = max-le (depth e) (depth_term t + 1) (length s) room d in
        ap
          (λ (text : List ℕ).
            run fits parse_atom (rounds e (suc (rounds_term t f))) text (at wait_unary_op l s))
          (append_assoc (print e) (b'|' ∷ print_term t) rest)
        ∙ expression-Comes e (suc (rounds_term t f)) (b'|' ∷ (print_term t ++ rest)) l o s g.0 refl
            k x d1 p
        ∙ or-Comes fits parse_atom (rounds_term t f) (print_term t ++ rest) o s
            (below (length s) (omega arith))
        ∙ term-Comes t f rest none q m (waiting or_token o s) s g.1 h (tt, k) (omega arith) r
            (rw z (unwind-block_ends m s x))

  -- The parser reads a printed expression back: it gives the predicate that the constructors of
  -- filter.c build from those of the atoms, where these exist, the atoms' texts are ones that the
  -- parser takes whole, and the expression is no deeper than the stack has room.
  pub predicate_parser-print :
      (e : Expression) (m : Option Matcher)
      → GoodAtoms e
      → depth e ≤ room
      → build parse_atom e ≡ some m
      → predicate_parser fits parse_atom (print e) ≡ some (parsed m)
  unfolding predicate_parser
  predicate_parser-print e m g d b =
      let (k, h) = expression-rounds e g in
      ap (λ (o : Option (Code × Parser)). o >>= λ r. some (finish r))
        (ap (λ (n : ℕ). run fits parse_atom n (print e) init)
            (enough (length (print e)) (rounds e (suc k)) k (h (suc k)))
          ∙ ap (λ (text : List ℕ). run fits parse_atom (rounds e (suc k)) text init)
              (sym (append-nil (print e)))
          ∙ expression-Comes e (suc k) [] none m [] g refl tt refl (omega arith) b
          ∙ ended k)
    where
      enough : (n r k : ℕ) → r + k ≡ n + suc k → suc n ≡ r
      enough n r k e = omega arith

      ended :
          (k : ℕ)
          → run fits parse_atom (suc k) [] (at wait_binary_op m [])
            ≡ some (end, at wait_binary_op m [])
      ended k = unfold run step get in refl
