-- ===== src/Examples/Predicates.antt =====
-- The predicate !a&(b|c), whose atoms are communities.
use cbgp.Base.{
  ℕ, suc, length, ◌≡◌, refl, Bool, false, Option, none, some, List, [], ◌∷◌, ltb, lt→ltb, arith,
}
use cbgp.Attr.Comm.{comms_contains}
use cbgp.Filter.{
  Matcher, match_comm_contains, match_and, match_or, match_not, filter_match_and, filter_match_or,
  filter_match_not, matcher_apply, filter_matcher_apply,
}
use cbgp.Filter.Predicate.{
  predicate_parser, parsed, init, run, apply_block_ops, Parser, wait_binary_op, par_close, par_open,
  not_token,
}
use cbgp.Filter.Predicate.Syntax.{
  atom, group, plain, negated, Expression, single, and_also, or_else, print, build_argument,
  build_term, build, depth, GoodAtoms,
}
use cbgp.Filter.Predicate.RoundTrip.{predicate_parser-print}
use cbgp.Filter.Predicate.Rounds.{Ends, run-Ends}
use cbgp.Filter.Predicate.StackRounds.{BlockEnds, apply_block_ops-BlockEnds}
use cbgp.Filter.Predicate.Meaning.{value, predicate_parser-value}
use cbgp.Examples.Routes.{route_a}
use cbgp.Examples.Filters.{any_path}

-- A stack with room for 100 items.
abbrev hundred : ℕ → Bool
hundred d = ltb d 100

abbrev by_letter : List ℕ → Option (Option Matcher)
by_letter [] = none
by_letter (c ∷ text) = some (some (match_comm_contains c))

abbrev sample : Expression
sample =
    and_also (single (negated (atom (b'a' ∷ []))))
      (plain (group (or_else (single (plain (atom (b'b' ∷ [])))) (plain (atom (b'c' ∷ []))))))

abbrev sample_matcher : Option Matcher
sample_matcher = some (
    match_and (match_not (match_comm_contains b'a'))
      (match_or (match_comm_contains b'b') (match_comm_contains b'c')))

sample-GoodAtoms : GoodAtoms sample
sample-GoodAtoms = ((refl, refl), ((refl, refl), (refl, refl)))

builds : build by_letter sample ≡ some sample_matcher
unfolding build build_term build_argument filter_match_and filter_match_or filter_match_not
builds = refl

predicate_parser-print_example :
    predicate_parser hundred by_letter (print sample) ≡ some (parsed sample_matcher)
predicate_parser-print_example =
    predicate_parser-print hundred by_letter 100 (λ d h. lt→ltb d 100 h) sample sample_matcher
      sample-GoodAtoms (unfold depth in omega arith) builds

-- No community is attached to the route, so no atom holds.
abbrev never : List ℕ → Bool
never text = false

atoms_never :
    (text : List ℕ) (a : Option Matcher)
    → by_letter text ≡ some a
    → filter_matcher_apply any_path a route_a ≡ some (never text)
unfolding matcher_apply comms_contains
atoms_never [] a e = absurd (cc)
atoms_never (c ∷ text) a e = rw (inner a e) refl
  where
    inner :
        (a : Option Matcher)
        → some (some (match_comm_contains c)) ≡ some a
        → a ≡ some (match_comm_contains c)
    inner a e = cc

predicate_parser-value_example :
    (predicate_parser hundred by_letter (print sample) ≡ some (parsed sample_matcher))
    × (filter_matcher_apply any_path sample_matcher route_a ≡ some (value never sample))
predicate_parser-value_example =
    predicate_parser-value any_path by_letter never route_a atoms_never hundred 100 sample
      sample_matcher (λ d h. lt→ltb d 100 h) sample-GoodAtoms (unfold depth in omega arith) builds

-- The text !a&(b|c) has 8 characters.
run-Ends_example :
    Ends by_letter hundred
      (suc (length (print sample)))
      (print sample)
      init
      (run hundred by_letter 20 (print sample) init)
unfolding print
run-Ends_example = run-Ends by_letter hundred 20 (print sample) init (omega arith)

abbrev closing : Parser
closing = record {
  state = wait_binary_op;
  cmd = par_close;
  left_predicate = some (match_comm_contains b'b');
  right_predicate = none;
  stack =
      record { cmd = par_open; left_predicate = none }
      ∷ record { cmd = not_token; left_predicate = none }
      ∷ [];
}

apply_block_ops-BlockEnds_example : BlockEnds 3 closing (apply_block_ops closing)
apply_block_ops-BlockEnds_example = apply_block_ops-BlockEnds closing
