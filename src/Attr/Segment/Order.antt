-- ===== src/Attr/Segment/Order.antt =====
-- path_segment_cmp as an order, and path_segment_equals (src/bgp/attr/path_segment.c).
use Prim.Native.Nat.{Ordering}
use cbgp.Base.{ℕ, ◌≡◌, ◌↔◌, refl, ap, true, false, some, List, [], ◌∷◌, arith, length, ◌==◌}
use cbgp.Attr.Segment.{
  Segment, set, sequence, same_asns, set_loop, path_segment_equals, cmp_asns, path_segment_cmp,
}

abbrev pub flip : Ordering → Ordering
flip Ordering.lt = Ordering.gt
flip Ordering.eq = Ordering.eq
flip Ordering.gt = Ordering.lt

pub cmp_asns_refl : (xs : List ℕ) → cmp_asns xs xs ≡ Ordering.eq
unfolding cmp_asns
cmp_asns_refl [] = refl
cmp_asns_refl (a ∷ xs) = ground (arith, cmp_asns_refl xs)

pub cmp_asns_eq : (xs ys : List ℕ) → length xs ≡ length ys → cmp_asns xs ys ≡ Ordering.eq → xs ≡ ys
unfolding cmp_asns
cmp_asns_eq [] [] h e = refl
cmp_asns_eq [] (b ∷ ys) h e = absurd (omega arith)
cmp_asns_eq (a ∷ xs) [] h e = absurd (omega arith)
cmp_asns_eq (a ∷ xs) (b ∷ ys) h e = ground (arith, cmp_asns_eq xs ys)

pub cmp_asns-flip : (xs ys : List ℕ) → cmp_asns ys xs ≡ flip (cmp_asns xs ys)
unfolding cmp_asns
cmp_asns-flip [] [] = refl
cmp_asns-flip [] (b ∷ ys) = refl
cmp_asns-flip (a ∷ xs) [] = refl
cmp_asns-flip (a ∷ xs) (b ∷ ys) = ground (arith, cmp_asns-flip xs ys)

cmp_asns_trans :
    (xs ys zs : List ℕ)
    → length xs ≡ length ys
    → length ys ≡ length zs
    → cmp_asns xs ys ≡ Ordering.lt
    → cmp_asns ys zs ≡ Ordering.lt
    → cmp_asns xs zs ≡ Ordering.lt
unfolding cmp_asns
cmp_asns_trans [] ys zs h k p q = cc
cmp_asns_trans (a ∷ xs) [] zs h k p q = absurd (omega arith)
cmp_asns_trans (a ∷ xs) (b ∷ ys) [] h k p q = absurd (omega arith)
cmp_asns_trans (a ∷ xs) (b ∷ ys) (c ∷ zs) h k p q =
    ground (arith, cmp_asns_trans xs ys zs, cmp_asns_eq xs ys, cmp_asns_eq ys zs)

-- Two segments compare as equal exactly when their AS numbers are the same list: the segment type
-- is not looked at.
pub path_segment_cmp_eq : (s t : Segment) → (path_segment_cmp s t ≡ Ordering.eq) ↔ (s.asns ≡ t.asns)
unfolding path_segment_cmp
path_segment_cmp_eq s t = (
  λ e. cmp_asns_eq s.asns t.asns (ground arith) (ground arith),
  λ e. rw e (ground (arith, cmp_asns_refl t.asns)),
)

-- Swapping the arguments swaps the sign.
pub path_segment_cmp-flip : (s t : Segment) → path_segment_cmp t s ≡ flip (path_segment_cmp s t)
unfolding path_segment_cmp
path_segment_cmp-flip s t = ground (arith, cmp_asns-flip s.asns t.asns)

pub path_segment_cmp_trans :
    (s t u : Segment)
    → path_segment_cmp s t ≡ Ordering.lt
    → path_segment_cmp t u ≡ Ordering.lt
    → path_segment_cmp s u ≡ Ordering.lt
unfolding path_segment_cmp
path_segment_cmp_trans s t u p q = ground (arith, cmp_asns_trans s.asns t.asns u.asns)

pub same_asns_iff : (xs ys : List ℕ) → (same_asns xs ys ≡ true) ↔ (xs ≡ ys)
same_asns_iff [] [] = ground arith
same_asns_iff [] (b ∷ ys) = ground arith
same_asns_iff (a ∷ xs) [] = ground arith
same_asns_iff (a ∷ xs) (b ∷ ys) = ground (arith, same_asns_iff xs ys)

set_loop-true : (xs : List ℕ) (s : Segment) → set_loop xs s ≡ true
unfolding set_loop
set_loop-true [] s = refl
set_loop-true (a ∷ xs) s = ground (arith, set_loop-true xs s)

-- Two AS-SEQUENCEs are equal exactly when they hold the same AS numbers in the same order.
pub path_segment_equals_sequence :
    (xs ys : List ℕ)
    → (path_segment_equals false
          (record { type = sequence; asns = xs })
          (record { type = sequence; asns = ys })
        ≡ some true)
      ↔ (xs ≡ ys)
unfolding path_segment_equals
path_segment_equals_sequence xs ys = (
  λ e. (same_asns_iff xs ys).0 (ground arith),
  λ e. ground (arith, same_asns_iff xs ys, ap length e),
)

-- Two AS-SETs are reported equal exactly when they have as many AS numbers, whatever these are.
pub path_segment_equals_set :
    (xs ys : List ℕ)
    → path_segment_equals false
        (record { type = set; asns = xs })
        (record { type = set; asns = ys })
      ≡ some (length xs == length ys)
unfolding path_segment_equals
path_segment_equals_set xs ys = ground (arith, set_loop-true xs (record { type = set; asns = ys }))
