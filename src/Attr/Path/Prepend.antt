-- ===== src/Attr/Path/Prepend.antt =====
-- Repeated path_append, as bgp_attr_path_prepend makes it (src/bgp/attr.c), and path_contains and
-- path_last_as on the result (src/bgp/attr/path.c).
use mathlib.Core.List.{append_assoc, append-nil}
use cbgp.Base.{
  ℕ, zero, suc, ◌+◌, ◌≤◌, ◌≡◌, ◌↔◌, refl, sym, ap, ◌∙◌, Option, none, some, List, [], ◌∷◌, ◌++◌,
  arith, In, replicate, ◌==◌, Bool-cases, In-append_left, In-append_right, In-append, inl, inr, ◌⊎◌,
  Outcome, ok, error, aborted, and_then, and_then-ok, ok_injective, subst,
}
use cbgp.Base.Int.{pos}
use cbgp.Attr.Segment.{path_segment_contains, contains_from}
use cbgp.Attr.Path.{
  AsPath, segments_of, path_append, prepend_loop, path_contains, contains_loop, path_length,
  path_last_as,
}
use cbgp.Attr.Path.Length.{IsWellPath, IsWellPath-IsPlain, hop_count, path_length_lem}
use cbgp.Attr.Path.Append.{flat, Appended, AppendsTo, IsFull, path_append_lem, path_append_numbers}

contains_from_iff : (xs : List ℕ) (a : ℕ) → (contains_from xs a ≡ 1) ↔ In a xs
contains_from_iff [] a = (λ e. absurd (omega arith), λ i. absurd i)
contains_from_iff (x ∷ xs) a = elim (Bool-cases (x == a)) [
  | inl e ↦ rw e (λ _. inl (ground arith), λ _. refl)
  | inr e ↦ rw e (
    λ h. inr ((contains_from_iff xs a).0 h),
    λ i. elim i [ inl q ↦ absurd (ground arith) | inr j ↦ (contains_from_iff xs a).1 j ],
  )
]

contains_zero_or_one : (xs : List ℕ) (a : ℕ) → (contains_from xs a ≡ 0) ⊎ (contains_from xs a ≡ 1)
contains_zero_or_one [] a = inl refl
contains_zero_or_one (x ∷ xs) a = ground (arith, contains_zero_or_one xs a)

contains_loop_iff : (p : AsPath) (a : ℕ) → (contains_loop p a ≡ 1) ↔ In a (flat p)
unfolding contains_loop path_segment_contains
contains_loop_iff [] a = (λ e. absurd (omega arith), λ i. absurd i)
contains_loop_iff (s ∷ p) a = elim (contains_zero_or_one s.asns a) [
  | inl e ↦
      rw (e, contains_loop)
        (
          λ h. In-append_right a s.asns (flat p) ((contains_loop_iff p a).0 h),
          λ i. elim (In-append a s.asns (flat p) i) [
            | inl j ↦ absurd (omega (arith, (contains_from_iff s.asns a).1 j))
            | inr j ↦ (contains_loop_iff p a).1 j
          ],
        )
  | inr e ↦
      rw (e, contains_loop)
        (λ _. In-append_left a s.asns (flat p) ((contains_from_iff s.asns a).0 e), λ _. refl)
]

-- path_contains answers 1 exactly when some segment holds the AS number.
pub path_contains_iff : (p : AsPath) (a : ℕ) → (path_contains (some p) a ≡ 1) ↔ In a (flat p)
unfolding path_contains
path_contains_iff p a = contains_loop_iff p a

contains_loop_zero_or_one : (p : AsPath) (a : ℕ) → (contains_loop p a ≡ 0) ⊎ (contains_loop p a ≡ 1)
unfolding contains_loop
contains_loop_zero_or_one [] a = inl refl
contains_loop_zero_or_one (s ∷ p) a = ground (arith, contains_loop_zero_or_one p a)

-- And 0 exactly when no segment does; a NULL path has none.
pub path_contains_zero_iff :
    (o : Option AsPath) (a : ℕ) → (path_contains o a ≡ 0) ↔ (In a (flat (segments_of o)) → ⊥)
unfolding path_contains
path_contains_zero_iff none a = (λ _ i. absurd i, λ _. refl)
path_contains_zero_iff (some p) a = (
  λ e i. absurd (omega (arith, e, (contains_loop_iff p a).1 i)),
  λ h. elim (contains_loop_zero_or_one p a) [
    | inl e ↦ e
    | inr e ↦ absurd (h ((contains_loop_iff p a).0 e))
  ],
)

IsFull-hops : (p : AsPath) → IsFull p → 255 ≤ hop_count p
IsFull-hops [] f = absurd f
IsFull-hops (s ∷ []) f = rw f.0 (omega arith)
IsFull-hops (s ∷ t ∷ p) f = omega (arith, IsFull-hops (t ∷ p) f)

-- What prepending `asn` to p `amount` times gives.
pub record Prepended (amount : ℕ) (p : AsPath) (asn : ℕ) (q : AsPath) : Type 0 where
  pub numbers : flat q ≡ flat p ++ replicate amount asn
  pub longer : hop_count q ≡ hop_count p + amount
  pub well : IsWellPath q

-- Below 255 hops the loop succeeds: the AS number is added `amount` times behind the others, the
-- path grows by as many hops, and stays well-formed.
pub prepend_loop_lem :
    (amount : ℕ) (p : AsPath) (asn : ℕ)
    → IsWellPath p
    → hop_count p + amount ≤ 255
    → (q : AsPath) × (prepend_loop amount p asn ≡ ok q) × Prepended amount p asn q
unfolding prepend_loop
prepend_loop_lem zero p asn w h =
    (p, refl, record { numbers = sym (append-nil (flat p)); longer = omega arith; well = w })
prepend_loop_lem (suc amount) p asn w h =
    go (path_append p asn) (path_append_lem p asn w) (λ q. prepend_loop_lem amount q asn)
  where
    Result : AsPath → ℕ → Outcome AsPath → Type 0
    Result p' n r = (q : AsPath) × (r ≡ ok q) × Prepended n p' asn q

    go :
        (r : Outcome (AsPath × ℕ))
        → AppendsTo p asn r
        → ((q : AsPath)
            → IsWellPath q
            → hop_count q + amount ≤ 255
            → Result q amount (prepend_loop amount q asn))
        → Result p (suc amount) (and_then r (λ q. prepend_loop amount q.0 asn))
    go (ok (q, n)) a rest =
        let (q', e, b) = rest q a.well (omega (arith, a.longer)) in
        (
          q',
          e,
          record {
            numbers =
                b.numbers ∙ rw a.numbers (append_assoc (flat p) (asn ∷ []) (replicate amount asn));
            longer = omega (arith, a.longer, b.longer);
            well = b.well;
          },
        )
    go error full rest = absurd (omega (arith, IsFull-hops p full))
    go aborted a rest = absurd a

pub prepend_loop_numbers :
    (amount : ℕ) (p : AsPath) (asn : ℕ) (q : AsPath)
    → prepend_loop amount p asn ≡ ok q
    → flat q ≡ flat p ++ replicate amount asn
unfolding prepend_loop
prepend_loop_numbers zero p asn q e = ap flat (sym (ok_injective p q e)) ∙ sym (append-nil (flat p))
prepend_loop_numbers (suc amount) p asn q e =
    let ((p', n), a, b) = and_then-ok (path_append p asn) _ q e in
    prepend_loop_numbers amount p' asn q b
    ∙ ap (λ xs. xs ++ replicate amount asn) (path_append_numbers p asn p' n a)
    ∙ append_assoc (flat p) (asn ∷ []) (replicate amount asn)

-- After a successful path_append, path_length is one more than before, path_last_as is the AS
-- number, and path_contains finds it.
pub path_append_observed :
    (p : AsPath) (asn : ℕ) (q : AsPath) (n : ℕ)
    → IsWellPath p
    → path_append p asn ≡ ok (q, n)
    → (path_length (some q) ≡ some (hop_count p + 1))
      × (path_last_as (some q) ≡ some (pos asn))
      × (path_contains (some q) asn ≡ 1)
unfolding path_last_as
path_append_observed p asn q n w e = (
  path_length_lem q (IsWellPath-IsPlain q a.well) ∙ ap some a.longer,
  rw (path_length_lem q (IsWellPath-IsPlain q a.well), a.longer) (ground (arith, a.last)),
  (path_contains_iff q asn).1 (rw a.numbers (In-append_right asn (flat p) (asn ∷ []) (inl refl))),
)
  where
    a : Appended p asn q
    a = subst (AppendsTo p asn) e (path_append_lem p asn w)
