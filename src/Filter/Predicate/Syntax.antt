-- ===== src/Filter/Predicate/Syntax.antt =====
-- The language of predicates that src/bgp/filter/predicate_parser.c reads. The parser has no grammar
-- of its own: this one is read off the tokens that its states allow.
use cbgp.Base.{
  ℕ, ◌+◌, ◌≡◌, refl, Bool, true, false, not, ◌&&◌, ◌||◌, Option, some, List, [], ◌∷◌, ◌++◌, leb,
  ◌==◌, if◌then◌else◌, ◌>>=◌,
}
use cbgp.Filter.{Matcher, filter_match_and, filter_match_or, filter_match_not}
use cbgp.Filter.Predicate.{is_special, atom_text}

mutual
  -- An atom as it is written, or an expression in parentheses.
  pub data Argument : Type 0 where
    atom : List ℕ → Argument
    group : Expression → Argument

  pub data Term : Type 0 where
    plain negated : Argument → Term

  -- Both operators bind to the left, with the same precedence.
  pub data Expression : Type 0 where
    single : Term → Expression
    and_also or_else : Expression → Term → Expression

unfoldable mutual
  pub print_argument : Argument → List ℕ
  print_argument (atom text) = text
  print_argument (group e) = b'(' ∷ (print e ++ b')' ∷ [])

  pub print_term : Term → List ℕ
  print_term (plain a) = print_argument a
  print_term (negated a) = b'!' ∷ print_argument a

  pub print : Expression → List ℕ
  print (single t) = print_term t
  print (and_also e t) = print e ++ b'&' ∷ print_term t
  print (or_else e t) = print e ++ b'|' ∷ print_term t

-- The predicate of an expression: that of the atoms, joined by the constructors of filter.c.
unfoldable mutual
  pub build_argument : (List ℕ → Option (Option Matcher)) → Argument → Option (Option Matcher)
  build_argument f (atom text) = f text
  build_argument f (group e) = build f e

  pub build_term : (List ℕ → Option (Option Matcher)) → Term → Option (Option Matcher)
  build_term f (plain a) = build_argument f a
  build_term f (negated a) = build_argument f a >>= λ m. filter_match_not m

  pub build : (List ℕ → Option (Option Matcher)) → Expression → Option (Option Matcher)
  build f (single t) = build_term f t
  build f (and_also e t) = build f e >>= λ m. build_term f t >>= λ n. filter_match_and m n
  build f (or_else e t) = build f e >>= λ m. build_term f t >>= λ n. filter_match_or m n

abbrev pub max : ℕ → ℕ → ℕ
max a b = if leb a b then b else a

-- How many items the stack holds at most while an expression is read.
unfoldable mutual
  pub depth_argument : Argument → ℕ
  depth_argument (atom text) = 0
  depth_argument (group e) = depth e + 1

  pub depth_term : Term → ℕ
  depth_term (plain a) = depth_argument a
  depth_term (negated a) = depth_argument a + 1

  pub depth : Expression → ℕ
  depth (single t) = depth_term t
  depth (and_also e t) = max (depth e) (depth_term t + 1)
  depth (or_else e t) = max (depth e) (depth_term t + 1)

-- The text of an atom starts like none of the other tokens, and has neither these characters nor an
-- open quotation behind its quoted parts.
abbrev pub starts_atom : List ℕ → Bool
starts_atom [] = false
starts_atom (c ∷ text) = not (is_special c || (c == b'(' || (c == b' ' || c == b'\t')))

abbrev pub whole : Bool → List ℕ → Bool
whole quoted [] = not quoted
whole quoted (c ∷ text) =
    (quoted || not (is_special c)) && whole (if c == b'"' then not quoted else quoted) text

abbrev pub IsAtom : List ℕ → Type 0
IsAtom text = (starts_atom text ≡ true) × (whole false text ≡ true)

abbrev mutual
  pub GoodArgument : Argument → Type 0
  GoodArgument (atom text) = IsAtom text
  GoodArgument (group e) = GoodAtoms e

  pub GoodTerm : Term → Type 0
  GoodTerm (plain a) = GoodArgument a
  GoodTerm (negated a) = GoodArgument a

  pub GoodAtoms : Expression → Type 0
  GoodAtoms (single t) = GoodTerm t
  GoodAtoms (and_also e t) = GoodAtoms e × GoodTerm t
  GoodAtoms (or_else e t) = GoodAtoms e × GoodTerm t

-- What may follow an atom: the end of the text, or an operator or a parenthesis that ends it.
abbrev pub stops : List ℕ → Bool
stops [] = true
stops (c ∷ rest) = is_special c

pub atom_text-whole :
    (quoted : Bool) (text rest : List ℕ)
    → whole quoted text ≡ true
    → stops rest ≡ true
    → atom_text quoted (text ++ rest) ≡ some (text, rest)
unfolding atom_text
atom_text-whole true [] rest h s = absurd (cc)
atom_text-whole false [] [] h s = refl
atom_text-whole false [] (c ∷ rest) h s = rw s refl
atom_text-whole quoted (c ∷ text) rest h s =
    let toggled = if c == b'"' then not quoted else quoted in
    go quoted (is_special c) (whole toggled text) (atom_text toggled (text ++ rest)) h
      (λ w. atom_text-whole toggled text rest w s)
  where
    go :
        (q special w : Bool) (o : Option (List ℕ × List ℕ))
        → ((q || not special) && w) ≡ true
        → (w ≡ true → o ≡ some (text, rest))
        → if◌then◌else◌ {A = Option (List ℕ × List ℕ)}
            (not q && special)
            (some ([], c ∷ (text ++ rest)))
            (o >>= λ p. some (c ∷ p.0, p.1))
          ≡ some (c ∷ text, rest)
    go true special true o h ih = rw (ih refl) refl
    go false false true o h ih = rw (ih refl) refl
    go true special false o h ih = absurd (cc)
    go false false false o h ih = absurd (cc)
    go false true w o h ih = absurd (cc)
