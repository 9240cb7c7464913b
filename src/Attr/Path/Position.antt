-- ===== src/Attr/Path/Position.antt =====
-- path_at and path_comparison (src/bgp/attr/path.c).
use cbgp.Base.{
  ℕ, zero, suc, ◌+◌, ◌<◌, ◌≡◌, refl, Bool, none, some, List, [], ◌∷◌, arith, ltb, if◌then◌else◌,
  Bool-cases, inl, inr, ◌>>=◌,
}
use cbgp.Base.Int.{minus_one}
use cbgp.Attr.Segment.{SegmentType, set, sequence}
use cbgp.Attr.Path.{
  AsPath, go_on, segment_scan, at_loop, path_at, comparison_loop, path_comparison, path_equals,
  int_of,
}
use cbgp.Attr.Path.Length.{IsPlainType, IsPlain, hop_count, path_length_lem}

segment_scan_goes_on :
    (t : SegmentType) (xs : List ℕ) (position : ℕ)
    → IsPlainType t
    → 0 < position
    → (next : ℕ) × (segment_scan t xs position ≡ some (go_on next))
unfolding segment_scan
segment_scan_goes_on sequence xs position h k = (position, refl)
segment_scan_goes_on set xs position h k = (position + 1, ground arith)
segment_scan_goes_on _ xs position h k = absurd h

at_loop_lem : (p : AsPath) (position : ℕ) → IsPlain p → at_loop p position ≡ some minus_one
unfolding at_loop
at_loop_lem [] position h = refl
at_loop_lem (s ∷ p) position h = elim (Bool-cases (ltb 0 position)) [
  | inl e ↦
      let (next, k) = segment_scan_goes_on s.type s.asns position h.0 (ground arith) in
      rw (e, at_loop) (rw (k, at_loop) (at_loop_lem p next h.1))
  | inr e ↦ rw (e, at_loop)
]

-- On a path without confederation segments path_at finds no AS number at any position: it always
-- returns -1.
pub path_at_lem :
    (p : AsPath) (position : ℕ) → IsPlain p → path_at (some p) position ≡ some minus_one
unfolding path_at
path_at_lem p position h = at_loop_lem p position h

comparison_loop_lem :
    (rounds index : ℕ) (p q : AsPath)
    → IsPlain p
    → IsPlain q
    → comparison_loop rounds index (some p) (some q) ≡ some none
unfolding comparison_loop
comparison_loop_lem zero index p q h k = refl
comparison_loop_lem (suc rounds) index p q h k =
    rw (path_at_lem p index h, path_at_lem q index k)
      (comparison_loop_lem rounds (index + 1) p q h k)

-- On two paths without confederation segments path_comparison therefore orders nothing: it returns
-- what path_equals returns, 1 or 0.
pub path_comparison_lem :
    (alias : Bool) (p q : AsPath)
    → IsPlain p
    → IsPlain q
    → path_comparison alias (some p) (some q)
      ≡ (path_equals alias (some p) (some q) >>= λ e. some (int_of e))
unfolding path_comparison
path_comparison_lem alias p q h k =
    rw (path_length_lem p h, path_length_lem q k)
      (rw (
        comparison_loop_lem (if ltb (hop_count p) (hop_count q) then hop_count p else hop_count q) 0
          p q h k))
