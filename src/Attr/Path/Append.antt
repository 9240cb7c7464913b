-- ===== src/Attr/Path/Append.antt =====
-- path_append, the loop of bgp_attr_path_prepend, and the two ends of a path (src/bgp/attr/path.c).
use mathlib.Core.List.{append_assoc, append-nil}
use cbgp.Base.{
  ℕ, ◌+◌, ◌≡◌, refl, sym, none, some, List, [], ◌∷◌, ◌++◌, arith, length, length-append, leb,
  Bool-cases, inl, inr, Outcome, ok, error, aborted, and_then, and_then-ok, ok_injective, ap, ◌∙◌,
}
use cbgp.Base.Int.{pos}
use cbgp.Attr.Segment.{Segment, SegmentType, set, sequence, path_segment_add}
use cbgp.Attr.Path.{AsPath, extend_last, append_last, path_append, last_as, last_of, last_segment}
use cbgp.Attr.Path.Length.{IsWell, IsWellPath, hop_count}

-- The AS numbers of a path, from the origin on.
abbrev pub flat : AsPath → List ℕ
flat [] = []
flat (s ∷ p) = s.asns ++ flat p

-- What appending `asn` to p gives when it succeeds with q.
pub record Appended (p : AsPath) (asn : ℕ) (q : AsPath) : Type 0 where
  pub numbers : flat q ≡ flat p ++ asn ∷ []
  pub longer : hop_count q ≡ hop_count p + 1
  pub well : IsWellPath q
  pub last : last_as q ≡ some (pos asn)

-- The only failure: the last segment is a SEQUENCE of 255 AS numbers.
abbrev pub IsFull : AsPath → Type 0
IsFull [] = ⊥
IsFull (s ∷ p) = ((last_segment s p).type ≡ sequence) × (length (last_segment s p).asns ≡ 255)

abbrev pub AppendsTo : AsPath → ℕ → Outcome (List Segment × ℕ) → Type 0
AppendsTo p asn (ok (q, n)) = Appended p asn q
AppendsTo p asn error = IsFull p
AppendsTo p asn aborted = ⊥

last_of-append : (xs : List ℕ) (a : ℕ) → last_of (xs ++ a ∷ []) ≡ some (pos a)
last_of-append [] a = refl
last_of-append (x ∷ []) a = refl
last_of-append (x ∷ y ∷ xs) a = last_of-append (y ∷ xs) a

extend_lem :
    (t : SegmentType) (xs : List ℕ) (asn : ℕ)
    → IsWell (record { type = t; asns = xs })
    → AppendsTo
        (record { type = t; asns = xs } ∷ [])
        asn
        (extend_last t (record { type = t; asns = xs }) asn)
unfolding path_segment_add
extend_lem sequence xs asn w = elim (Bool-cases (leb 255 (length xs))) [
  | inl e ↦ rw e (refl, ground arith)
  | inr e ↦ rw e (record {
    numbers = rw (append-nil (xs ++ asn ∷ []), append-nil xs);
    longer = omega (arith, length-append xs (asn ∷ []));
    well = (
      record {
        plain = tt;
        some_asn = omega (arith, length-append xs (asn ∷ []));
        fits = ground (arith, length-append xs (asn ∷ []));
      },
      tt,
    );
    last = last_of-append xs asn;
  })
]
extend_lem set xs asn w = record {
  numbers = rw (append-nil xs);
  longer = refl;
  well = (w, (record { plain = tt; some_asn = omega arith; fits = omega arith }, tt));
  last = refl;
}
extend_lem _ xs asn w = absurd w.plain

behind_lem :
    (s t : Segment) (p q : AsPath) (asn : ℕ)
    → IsWell s
    → Appended (t ∷ p) asn q
    → Appended (s ∷ t ∷ p) asn (s ∷ q)
behind_lem s t p [] asn w a = absurd (none≢some a.last)
  where
    none≢some : ¬ (none ≡ some (pos asn))
    none≢some e = cc
behind_lem s t p (u ∷ q) asn w a = record {
  numbers = rw a.numbers (sym (append_assoc s.asns (t.asns ++ flat p) (asn ∷ [])));
  longer = omega (arith, a.longer);
  well = (w, a.well);
  last = a.last;
}

append_last_lem :
    (s : Segment) (p : AsPath) (asn : ℕ)
    → IsWellPath (s ∷ p)
    → AppendsTo (s ∷ p) asn (append_last s p asn)
unfolding append_last
append_last_lem s [] asn w = extend_lem s.type s.asns asn w.0
append_last_lem s (t ∷ p) asn w = go (append_last t p asn) (append_last_lem t p asn w.1)
  where
    go :
        (r : Outcome (List Segment × ℕ))
        → AppendsTo (t ∷ p) asn r
        → AppendsTo (s ∷ t ∷ p) asn (and_then r (λ q. ok (s ∷ q.0, q.1)))
    go (ok (q, n)) a = behind_lem s t p q asn w.0 a
    go error full = full
    go aborted a = a

-- On a well-formed path the AS number becomes the last one, behind all the others, the path grows
-- by one hop and stays well-formed; it is refused only where the last segment is full.
pub path_append_lem : (p : AsPath) (asn : ℕ) → IsWellPath p → AppendsTo p asn (path_append p asn)
unfolding path_append
path_append_lem [] asn w = record {
  numbers = refl;
  longer = refl;
  well = (record { plain = tt; some_asn = omega arith; fits = omega arith }, tt);
  last = refl;
}
path_append_lem (s ∷ p) asn w = go (append_last s p asn) (append_last_lem s p asn w)
  where
    go :
        (r : Outcome (List Segment × ℕ))
        → AppendsTo (s ∷ p) asn r
        → AppendsTo (s ∷ p) asn (and_then r (λ q. ok (q.0, length (s ∷ p) + q.1)))
    go (ok (q, n)) a = a
    go error full = full
    go aborted a = a

-- Whatever the path, where path_append succeeds the AS number is behind all the others.
extend_numbers :
    (t : SegmentType) (s : Segment) (asn : ℕ) (q : AsPath) (n : ℕ)
    → extend_last t s asn ≡ ok (q, n)
    → flat q ≡ s.asns ++ asn ∷ []
unfolding path_segment_add
extend_numbers sequence s asn q n e = elim (Bool-cases (leb 255 (length s.asns))) [
  | inl f ↦ absurd (ground (arith, f, e))
  | inr f ↦
      let x : ok (record s { asns = s.asns ++ asn ∷ [] } ∷ [], 0) ≡ ok (q, n) = rw f at e in
      ap (λ z. flat z.0) (sym (ok_injective _ (q, n) x)) ∙ append-nil (s.asns ++ asn ∷ [])
]
extend_numbers set s asn q n e = ap (λ z. flat z.0) (sym (ok_injective _ (q, n) e))
extend_numbers _ s asn q n e = absurd (cc)

append_last_numbers :
    (s : Segment) (p : AsPath) (asn : ℕ) (q : AsPath) (n : ℕ)
    → append_last s p asn ≡ ok (q, n)
    → flat q ≡ flat (s ∷ p) ++ asn ∷ []
unfolding append_last
append_last_numbers s [] asn q n e =
    extend_numbers s.type s asn q n e ∙ ap (λ xs. xs ++ asn ∷ []) (sym (append-nil s.asns))
append_last_numbers s (t ∷ p) asn q n e =
    let ((q', n'), a, b) = and_then-ok (append_last t p asn) _ (q, n) e in
    ap (λ z. flat z.0) (sym (ok_injective _ (q, n) b))
    ∙ ap (λ xs. s.asns ++ xs) (append_last_numbers t p asn q' n' a)
    ∙ sym (append_assoc s.asns (flat (t ∷ p)) (asn ∷ []))

pub path_append_numbers :
    (p : AsPath) (asn : ℕ) (q : AsPath) (n : ℕ)
    → path_append p asn ≡ ok (q, n)
    → flat q ≡ flat p ++ asn ∷ []
unfolding path_append
path_append_numbers [] asn q n e = ap (λ z. flat z.0) (sym (ok_injective _ (q, n) e))
path_append_numbers (s ∷ p) asn q n e =
    let ((q', n'), a, b) = and_then-ok (append_last s p asn) _ (q, n) e in
    ap (λ z. flat z.0) (sym (ok_injective _ (q, n) b)) ∙ append_last_numbers s p asn q' n' a
