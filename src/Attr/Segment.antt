-- ===== src/Attr/Segment.antt =====
-- AS-Path segments: src/bgp/attr/path_segment.c and the types of src/bgp/attr/types.h.
pub mod Private
pub mod Order
use cbgp.Base.{
  ℕ, zero, suc, ◌+◌, ◌-◌, ◌≡◌, Bool, true, false, ◌&&◌, Option, none, some, List, [], ◌∷◌, ◌++◌,
  length, get_elem?, take, drop, ltb, leb, ◌==◌, if◌then◌else◌, Outcome, ok, error,
}
use cbgp.Base.Int.{ℤ, pos, negsuc, ltb_ℤ}
use Prim.Native.Nat.{Ordering}

-- The four codes that types.h defines for the field `type`.
pub data SegmentType : Type 0 where
  set sequence confed_set confed_sequence : SegmentType

abbrev pub type_code : SegmentType → ℕ
type_code set = 1
type_code sequence = 2
type_code confed_set = 3
type_code confed_sequence = 4

-- The uint8 field `length` is the length of the array of uint16 AS numbers.
pub record Segment : Type 0 where
  pub type : SegmentType
  pub asns : List ℕ

abbrev pub max_path_sequence_length : ℕ
max_path_sequence_length = 255

unfoldable pub path_segment_add : Segment → ℕ → Outcome Segment
path_segment_add s asn =
    if leb max_path_sequence_length (length s.asns)
    then error
    else ok (record s { asns = s.asns ++ asn ∷ [] })

abbrev pub contains_from : List ℕ → ℕ → ℕ
contains_from [] asn = 0
contains_from (a ∷ xs) asn = if a == asn then 1 else contains_from xs asn

-- 1 if the segment holds the AS number, 0 otherwise.
unfoldable pub path_segment_contains : Segment → ℕ → ℕ
path_segment_contains s asn = contains_from s.asns asn

-- `memcmp` of two arrays of the same length.
abbrev pub same_asns : List ℕ → List ℕ → Bool
same_asns [] [] = true
same_asns (a ∷ xs) (b ∷ ys) = a == b && same_asns xs ys
same_asns _ _ = false

-- The loop over an AS-SET: `contains(...) < -1` is the test that the source makes.
unfoldable pub set_loop : List ℕ → Segment → Bool
set_loop [] s = true
set_loop (a ∷ xs) s =
    if ltb_ℤ (pos (path_segment_contains s a)) (negsuc 0) then false else set_loop xs s

abbrev same_type : SegmentType → SegmentType → Bool
same_type t u = type_code t == type_code u

equals_by_type : SegmentType → Segment → Segment → Option Bool
unfolding set_loop path_segment_contains
equals_by_type sequence s t = some (same_asns s.asns t.asns)
equals_by_type set s t = some (set_loop s.asns t)
equals_by_type _ s t = none

-- `alias` tells whether the two pointers are equal; `none` is abort().
unfoldable pub path_segment_equals : Bool → Segment → Segment → Option Bool
unfolding equals_by_type
path_segment_equals alias s t =
    if alias
    then some true
    else if same_type s.type t.type && length s.asns == length t.asns
    then equals_by_type s.type s t
    else some false

-- -1, 0 and 1 of the source are lt, eq and gt.
unfoldable pub cmp_asns : List ℕ → List ℕ → Ordering
cmp_asns (a ∷ xs) (b ∷ ys) =
    if ltb a b then Ordering.lt else if ltb b a then Ordering.gt else cmp_asns xs ys
cmp_asns _ _ = Ordering.eq

unfoldable pub path_segment_cmp : Segment → Segment → Ordering
unfolding cmp_asns
path_segment_cmp s t =
    if ltb (length s.asns) (length t.asns)
    then Ordering.lt
    else if ltb (length t.asns) (length s.asns)
    then Ordering.gt
    else cmp_asns s.asns t.asns

-- memmove of what follows `index` one place down, and `length--`.
abbrev pub remove_at : ℕ → List ℕ → List ℕ
remove_at index xs = take index xs ++ drop (suc index) xs

-- The while loop of path_segment_remove_private on `fuel` rounds: the array and the flag `resize`.
unfoldable pub private_loop : ℕ → ℕ → List ℕ → Bool → Option (List ℕ × Bool)
private_loop zero index xs resize = none
private_loop (suc fuel) index xs resize = elim (get_elem? xs index) [
  | none ↦ some (xs, resize)
  | some a ↦ elim (leb 64512 a) [
    | true ↦ private_loop fuel index (remove_at index xs) true
    | false ↦ private_loop fuel (suc index) xs resize
  ]
]

abbrev pub resized : Segment → List ℕ → Bool → Option Segment
resized s [] true = none
resized s xs _ = some (record s { asns = xs })

-- NULL, the inner `none`, if every AS number was removed. The outer `none` is a lack of fuel.
unfoldable pub path_segment_remove_private : Segment → Option (Option Segment)
unfolding private_loop
path_segment_remove_private s = elim (private_loop (suc (length s.asns)) 0 s.asns false) [
  | none ↦ none
  | some (xs, resize) ↦ some (resized s xs resize)
]
