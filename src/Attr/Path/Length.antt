-- ===== src/Attr/Path/Length.antt =====
-- path_length and the paths on which it is defined (src/bgp/attr/path.c).

use cbgp.Base.{ℕ, ◌+◌, ◌≤◌, ◌≡◌, refl, ap, ◌∙◌, some, List, [], ◌∷◌, arith, length, All}
use cbgp.Attr.Segment.{Segment, SegmentType, set, sequence}
use cbgp.Attr.Path.{AsPath, segment_hops, length_loop, path_length}

-- A segment is a SET or a SEQUENCE, not empty, and fits the uint8 length.
abbrev pub IsPlainType : SegmentType → Type 0
IsPlainType set = Unit
IsPlainType sequence = Unit
IsPlainType _ = ⊥

pub record IsWell (s : Segment) : Type 0 where
  pub plain : IsPlainType s.type
  pub some_asn : 1 ≤ length s.asns
  pub fits : length s.asns ≤ 255

abbrev pub IsPlain : AsPath → Type 0
IsPlain p = All (λ s. IsPlainType s.type) p

abbrev pub IsWellPath : AsPath → Type 0
IsWellPath p = All IsWell p

pub IsWellPath-IsPlain : (p : AsPath) → IsWellPath p → IsPlain p
IsWellPath-IsPlain [] w = tt
IsWellPath-IsPlain (s ∷ p) w = (w.0.plain, IsWellPath-IsPlain p w.1)

-- The reference: a SEQUENCE counts its AS numbers, a SET counts for one.
abbrev pub hops_of : SegmentType → List ℕ → ℕ
hops_of sequence xs = length xs
hops_of set xs = 1
hops_of _ xs = 0

abbrev pub hop_count : AsPath → ℕ
hop_count [] = 0
hop_count (s ∷ p) = hops_of s.type s.asns + hop_count p

segment_hops_lem :
    (t : SegmentType) (xs : List ℕ) → IsPlainType t → segment_hops t xs ≡ some (hops_of t xs)
segment_hops_lem sequence xs h = refl
segment_hops_lem set xs h = refl
segment_hops_lem _ xs h = absurd h

length_loop_lem : (p : AsPath) (n : ℕ) → IsPlain p → length_loop p n ≡ some (n + hop_count p)
unfolding length_loop
length_loop_lem [] n h = ap some (omega arith)
length_loop_lem (s ∷ p) n h =
    rw (segment_hops_lem s.type s.asns h.0, length_loop)
      (length_loop_lem p (n + hops_of s.type s.asns) h.1 ∙ ap some (omega arith))

pub path_length_lem : (p : AsPath) → IsPlain p → path_length (some p) ≡ some (hop_count p)
unfolding path_length
path_length_lem p h = length_loop_lem p 0 h ∙ ap some (omega arith)
