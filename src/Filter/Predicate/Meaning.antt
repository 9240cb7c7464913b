-- ===== src/Filter/Predicate/Meaning.antt =====
-- What the predicates that src/bgp/filter/predicate_parser.c reads match (src/bgp/filter/filter.c).
use cbgp.Base.{ℕ, ◌≤◌, ◌<◌, ◌≡◌, Bool, true, not, ◌&&◌, ◌||◌, Option, some, List, >>=-some}
use cbgp.Attr.Path.{AsPath}
use cbgp.Route.{Route}
use cbgp.Filter.{Matcher, filter_matcher_apply}
use cbgp.Filter.Matchers.{filter_match_and_lem, filter_match_or_lem, filter_match_not_lem}
use cbgp.Filter.Predicate.{predicate_parser, parsed}
use cbgp.Filter.Predicate.Syntax.{
  Argument, atom, group, Term, plain, negated, Expression, single, and_also, or_else, print,
  build_argument, build_term, build, depth, GoodAtoms,
}
use cbgp.Filter.Predicate.RoundTrip.{predicate_parser-print}

-- The truth value of an expression, from those of its atoms.
abbrev mutual
  pub value_argument : (List ℕ → Bool) → Argument → Bool
  value_argument holds (atom text) = holds text
  value_argument holds (group e) = value holds e

  pub value_term : (List ℕ → Bool) → Term → Bool
  value_term holds (plain a) = value_argument holds a
  value_term holds (negated a) = not (value_argument holds a)

  pub value : (List ℕ → Bool) → Expression → Bool
  value holds (single t) = value_term holds t
  value holds (and_also e t) = value holds e && value_term holds t
  value holds (or_else e t) = value holds e || value_term holds t

module _ (path_match : ℕ → Option AsPath → Option Bool)
    (parse_atom : List ℕ → Option (Option Matcher)) (holds : List ℕ → Bool) (r : Route)
    (atoms : (text : List ℕ) (a : Option Matcher)
      → parse_atom text ≡ some a
      → filter_matcher_apply path_match a r ≡ some (holds text)) where
  mutual
    unfolding build_argument build_term build

    build_argument-value :
        (a : Argument) (m : Option Matcher)
        → build_argument parse_atom a ≡ some m
        → filter_matcher_apply path_match m r ≡ some (value_argument holds a)
    build_argument-value (atom text) m e = atoms text m e
    build_argument-value (group e) m b = build-value e m b

    build_term-value :
        (t : Term) (m : Option Matcher)
        → build_term parse_atom t ≡ some m
        → filter_matcher_apply path_match m r ≡ some (value_term holds t)
    build_term-value (plain a) m b = build_argument-value a m b
    build_term-value (negated a) m b =
        let (n, p, q) = >>=-some (build_argument parse_atom a) _ m b in
        filter_match_not_lem path_match r n m (value_argument holds a) q
          (build_argument-value a n p)

    build-value :
        (e : Expression) (m : Option Matcher)
        → build parse_atom e ≡ some m
        → filter_matcher_apply path_match m r ≡ some (value holds e)
    build-value (single t) m b = build_term-value t m b
    build-value (and_also e t) m b =
        let (n, p, x) = >>=-some (build parse_atom e) _ m b in
        let (o, q, y) = >>=-some (build_term parse_atom t) _ m x in
        filter_match_and_lem path_match r n o m (value holds e) (value_term holds t) y
          (build-value e n p) (build_term-value t o q)
    build-value (or_else e t) m b =
        let (n, p, x) = >>=-some (build parse_atom e) _ m b in
        let (o, q, y) = >>=-some (build_term parse_atom t) _ m x in
        filter_match_or_lem path_match r n o m (value holds e) (value_term holds t) y
          (build-value e n p) (build_term-value t o q)

  -- What the parser makes of a printed expression matches a route exactly if the expression is true
  -- of it, with `&` and `|` binding to the left alike and `!` tighter, where the predicate of each
  -- atom matches exactly if the atom is true of the route, the predicate of the expression can be
  -- built, the atoms' texts are ones that the parser takes whole, and the stack has room.
  pub predicate_parser-value :
      (fits : ℕ → Bool) (room : ℕ) (e : Expression) (m : Option Matcher)
      → ((d : ℕ) → d < room → fits d ≡ true)
      → GoodAtoms e
      → depth e ≤ room
      → build parse_atom e ≡ some m
      → (predicate_parser fits parse_atom (print e) ≡ some (parsed m))
        × (filter_matcher_apply path_match m r ≡ some (value holds e))
  predicate_parser-value fits room e m below g d b =
      (predicate_parser-print fits parse_atom room below e m g d b, build-value e m b)
