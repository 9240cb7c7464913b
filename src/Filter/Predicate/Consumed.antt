-- ===== src/Filter/Predicate/Consumed.antt =====
-- What a token of src/bgp/filter/predicate_parser.c takes of the text.
use cbgp.Base.{
  ℕ, suc, ◌≤◌, ◌<◌, ◌≡◌, refl, arith, Bool, true, false, not, ◌&&◌, ◌||◌, Option, none, some, List,
  [], ◌∷◌, length, ◌==◌, if◌then◌else◌, ◌>>=◌,
}
use cbgp.Filter.{Matcher}
use cbgp.Filter.Predicate.{
  no_token, eof, atom, not_token, and_token, or_token, par_open, par_close, Code, is_special,
  atom_text, Lexed, token, predicate, failed, get_atom, get,
}

abbrev Behind : ℕ → Option (List ℕ × List ℕ) → Type 0
Behind n none = Unit
Behind n (some s) = length s.1 ≤ n

Behind-taken :
    (b : Bool) (n : ℕ) (c : ℕ) (text : List ℕ) (o : Option (List ℕ × List ℕ))
    → length text < n
    → Behind (length text) o
    → Behind n (
        if◌then◌else◌ {A = Option (List ℕ × List ℕ)} b
          (some ([], c ∷ text))
          (o >>= λ s. some (c ∷ s.0, s.1)))
Behind-taken true n c text o h k = omega arith
Behind-taken false n c text none h k = tt
Behind-taken false n c text (some s) h k = omega arith

atom_text-Behind : (quoted : Bool) (text : List ℕ) → Behind (length text) (atom_text quoted text)
unfolding atom_text
atom_text-Behind true [] = tt
atom_text-Behind false [] = omega arith
atom_text-Behind quoted (c ∷ text) =
    Behind-taken (not quoted && is_special c) (suc (length text)) c text
      (atom_text (if c == b'"' then not quoted else quoted) text) (omega arith)
      (atom_text-Behind (if c == b'"' then not quoted else quoted) text)

-- What a token leaves of the text, but for the end of the text.
abbrev pub Shorter : ℕ → Lexed → Type 0
Shorter n (failed c) = Unit
Shorter n (predicate m rest) = length rest < n
Shorter n (token eof rest) = Unit
Shorter n (token t rest) = length rest < n

weaker : (n : ℕ) (x : Lexed) → Shorter n x → Shorter (suc n) x
weaker n (failed c) h = tt
weaker n (predicate m rest) h = omega arith
weaker n (token eof rest) h = tt
weaker n (token no_token rest) h = omega arith
weaker n (token atom rest) h = omega arith
weaker n (token not_token rest) h = omega arith
weaker n (token and_token rest) h = omega arith
weaker n (token or_token rest) h = omega arith
weaker n (token par_open rest) h = omega arith
weaker n (token par_close rest) h = omega arith

module _ (parse_atom : List ℕ → Option (Option Matcher)) where
  get_atom-Shorter :
      (c : ℕ) (text : List ℕ)
      → is_special c ≡ false
      → Shorter (suc (length text)) (get_atom parse_atom (c ∷ text))
  unfolding get_atom atom_text
  get_atom-Shorter c text h =
      shorter (is_special c) (atom_text (if c == b'"' then true else false) text) h
        (atom_text-Behind (if c == b'"' then true else false) text)
    where
      read : List ℕ × List ℕ → Option (Option Matcher) → Lexed
      read s o = elim o [ none ↦ failed Code.atom_error | some m ↦ predicate m s.1 ]

      lexed : Option (List ℕ × List ℕ) → Lexed
      lexed o = elim o [
        | none ↦ failed Code.unfinished_string
        | some s ↦ elim (parse_atom s.0) [
          | none ↦ failed Code.atom_error
          | some m ↦ predicate m s.1
        ]
      ]

      kept :
          (s : List ℕ × List ℕ) (o : Option (Option Matcher))
          → length s.1 ≤ length text
          → Shorter (suc (length text)) (read s o)
      kept s none k = tt
      kept s (some m) k = omega arith

      shorter :
          (b : Bool) (o : Option (List ℕ × List ℕ))
          → b ≡ false
          → Behind (length text) o
          → Shorter (suc (length text)) (
              lexed (
                if◌then◌else◌ {A = Option (List ℕ × List ℕ)} b
                  (some ([], c ∷ text))
                  (o >>= λ s. some (c ∷ s.0, s.1))))
      shorter true o e k = absurd (cc)
      shorter false none e k = tt
      shorter false (some s) e k = kept (c ∷ s.0, s.1) (parse_atom (c ∷ s.0)) k

  pub get-Shorter : (text : List ℕ) → Shorter (length text) (get parse_atom text)
  unfolding get
  get-Shorter [] = tt
  get-Shorter (c ∷ text) =
      tests (c == b'!') (c == b'&') (c == b'|') (c == b'(') (c == b')') (c == b' ' || c == b'\t')
        (get_atom-Shorter c text) (get-Shorter text)
    where
      tests :
          (n a o l r b : Bool)
          → ((r || a || o || n) ≡ false
              → Shorter (suc (length text)) (get_atom parse_atom (c ∷ text)))
          → Shorter (length text) (get parse_atom text)
          → Shorter (suc (length text)) (
              if n
              then token not_token text
              else if a
              then token and_token text
              else (if o
                  then token or_token text
                  else if l
                  then token par_open text
                  else (if r
                      then token par_close text
                      else if b
                      then get parse_atom text
                      else get_atom parse_atom (c ∷ text))))
      tests true a o l r b h k = omega arith
      tests false true o l r b h k = omega arith
      tests false false true l r b h k = omega arith
      tests false false false true r b h k = omega arith
      tests false false false false true b h k = omega arith
      tests false false false false false true h k = weaker (length text) (get parse_atom text) k
      tests false false false false false false h k = h refl
