-- ===== src/Attr/Path/Order.antt =====
-- path_cmp as an order (src/bgp/attr/path.c).
use Prim.Native.Nat.{Ordering}
use cbgp.Base.{ℕ, suc, ◌≡◌, ◌↔◌, refl, ap, false, some, List, [], ◌∷◌, arith, length}
use cbgp.Attr.Segment.{Segment, path_segment_cmp}
use cbgp.Attr.Segment.Order.{
  flip, path_segment_cmp_eq, path_segment_cmp-flip, path_segment_cmp_trans,
}
use cbgp.Attr.Path.{AsPath, cmp_loop, path_cmp}

-- The AS numbers of each segment, without the segment types.
abbrev pub numbers : AsPath → List (List ℕ)
numbers [] = []
numbers (s ∷ p) = s.asns ∷ numbers p

cmp_loop_refl : (p q : AsPath) → numbers p ≡ numbers q → cmp_loop p q ≡ Ordering.eq
unfolding cmp_loop
cmp_loop_refl [] q e = refl
cmp_loop_refl (s ∷ p) [] e = cc
cmp_loop_refl (s ∷ p) (t ∷ q) e =
    rw ((path_segment_cmp_eq s t).1 (cc), cmp_loop) (cmp_loop_refl p q (cc))

cmp_loop_eq :
    (p q : AsPath) → length p ≡ length q → cmp_loop p q ≡ Ordering.eq → numbers p ≡ numbers q
unfolding cmp_loop
cmp_loop_eq [] [] h e = refl
cmp_loop_eq [] (t ∷ q) h e = absurd (omega arith)
cmp_loop_eq (s ∷ p) [] h e = absurd (omega arith)
cmp_loop_eq (s ∷ p) (t ∷ q) h e = ground (arith, path_segment_cmp_eq s t, cmp_loop_eq p q)

cmp_loop-flip : (p q : AsPath) → cmp_loop q p ≡ flip (cmp_loop p q)
unfolding cmp_loop
cmp_loop-flip [] [] = refl
cmp_loop-flip [] (t ∷ q) = refl
cmp_loop-flip (s ∷ p) [] = refl
cmp_loop-flip (s ∷ p) (t ∷ q) = ground (arith, path_segment_cmp-flip s t, cmp_loop-flip p q)

cmp_cong_left : (s t u : Segment) → s.asns ≡ t.asns → path_segment_cmp s u ≡ path_segment_cmp t u
unfolding path_segment_cmp
cmp_cong_left s t u e = rw e

cmp_cong_right : (s t u : Segment) → t.asns ≡ u.asns → path_segment_cmp s t ≡ path_segment_cmp s u
unfolding path_segment_cmp
cmp_cong_right s t u e = rw e

cmp_loop_trans :
    (p q r : AsPath)
    → length p ≡ length q
    → length q ≡ length r
    → cmp_loop p q ≡ Ordering.lt
    → cmp_loop q r ≡ Ordering.lt
    → cmp_loop p r ≡ Ordering.lt
unfolding cmp_loop
cmp_loop_trans [] q r h k a b = cc
cmp_loop_trans (s ∷ p) [] r h k a b = absurd (omega arith)
cmp_loop_trans (s ∷ p) (t ∷ q) [] h k a b = absurd (omega arith)
cmp_loop_trans (s ∷ p) (t ∷ q) (u ∷ r) h k a b = ground (
  arith,
  path_segment_cmp_trans s t u,
  path_segment_cmp_eq s t,
  path_segment_cmp_eq t u,
  cmp_cong_left s t u,
  cmp_cong_right s t u,
  cmp_loop_trans p q r,
)

length-numbers : (p : AsPath) → length (numbers p) ≡ length p
length-numbers [] = refl
length-numbers (s ∷ p) = ap suc (length-numbers p)

-- path_cmp is a strict total order on paths seen as lists of lists of AS numbers. It returns 0
-- exactly on paths that agree segment by segment, their types aside, swapping its arguments
-- swaps the sign, and "less than" is transitive.
pub path_cmp_total_order :
    (p q r : AsPath)
    → ((path_cmp false (some p) (some q) ≡ Ordering.eq) ↔ (numbers p ≡ numbers q))
      × (path_cmp false (some q) (some p) ≡ flip (path_cmp false (some p) (some q)))
      × (path_cmp false (some p) (some q) ≡ Ordering.lt
          → path_cmp false (some q) (some r) ≡ Ordering.lt
          → path_cmp false (some p) (some r) ≡ Ordering.lt)
unfolding path_cmp
path_cmp_total_order p q r = (
  (
    λ e. cmp_loop_eq p q (ground arith) (ground arith),
    λ e. ground (arith, cmp_loop_refl p q e, ap length e, length-numbers p, length-numbers q),
  ),
  ground (arith, cmp_loop-flip p q),
  λ a b. ground (arith, cmp_loop_trans p q r),
)
