-- ===== src/Attr/Path.antt =====
-- AS-Paths: src/bgp/attr/path.c, in the build where a path is an array of segments. The origin AS is
-- the first AS number of the first segment; a NULL path is `none`.
pub mod Length
pub mod Append
pub mod Prepend
pub mod Private
pub mod Order
pub mod Position
pub mod Hash
use Prim.Native.Nat.{Ordering}
use cbgp.Base.{
  ℕ, zero, suc, ◌+◌, ◌-◌, ◌*◌, ◌/◌, ◌%◌, ◌^◌, ◌≡◌, Bool, true, false, ◌&&◌, Option, none, some,
  List, [], ◌∷◌, ◌++◌, length, get_elem?, ltb, leb, ◌==◌, if◌then◌else◌, Outcome, ok, error,
  aborted, and_then, ◌>>=◌,
}
use cbgp.Base.Int.{ℤ, pos, negsuc, minus_one, ltb_ℤ}
use cbgp.Attr.Segment.{
  Segment, SegmentType, set, sequence, confed_set, confed_sequence, type_code, path_segment_add,
  path_segment_contains, path_segment_equals, path_segment_cmp, path_segment_remove_private,
}

abbrev pub AsPath : Type 0
AsPath = List Segment

abbrev pub path_num_segments : Option AsPath → ℕ
path_num_segments none = 0
path_num_segments (some p) = length p

-- What one segment adds to the length; other types abort.
abbrev segment_hops : SegmentType → List ℕ → Option ℕ
segment_hops sequence xs = some (length xs)
segment_hops set xs = some 1
segment_hops _ xs = none

length_loop : List Segment → ℕ → Option ℕ
length_loop [] n = some n
length_loop (s ∷ p) n = elim (segment_hops s.type s.asns) [
  | none ↦ none
  | some k ↦ length_loop p (n + k)
]

unfoldable pub path_length : Option AsPath → Option ℕ
unfolding length_loop
path_length none = some 0
path_length (some p) = length_loop p 0

abbrev pub new_sequence : ℕ → Segment
new_sequence asn = record { type = sequence; asns = asn ∷ [] }

-- The switch on the last segment: the segments that take its place, and what `length` grows by.
abbrev extend_last : SegmentType → Segment → ℕ → Outcome (List Segment × ℕ)
extend_last sequence s asn = and_then (path_segment_add s asn) (λ s'. ok (s' ∷ [], 0))
extend_last set s asn = ok (s ∷ new_sequence asn ∷ [], 1)
extend_last _ s asn = aborted

abbrev behind : Segment → Outcome (List Segment × ℕ) → Outcome (List Segment × ℕ)
behind s r = and_then r (λ q. ok (s ∷ q.0, q.1))

append_last : Segment → List Segment → ℕ → Outcome (List Segment × ℕ)
append_last s [] asn = extend_last s.type s asn
append_last s (t ∷ p) asn = behind s (append_last t p asn)

-- The new path and the value returned.
unfoldable pub path_append : AsPath → ℕ → Outcome (AsPath × ℕ)
unfolding append_last path_segment_add
path_append [] asn = ok (new_sequence asn ∷ [], 0)
path_append (s ∷ p) asn = and_then (append_last s p asn) (λ q. ok (q.0, length (s ∷ p) + q.1))

-- The loop of bgp_attr_path_prepend (src/bgp/attr.c): the AS number is appended `amount` times.
unfoldable pub prepend_loop : ℕ → AsPath → ℕ → Outcome AsPath
unfolding path_append
prepend_loop zero p asn = ok p
prepend_loop (suc amount) p asn = and_then (path_append p asn) (λ q. prepend_loop amount q.0 asn)

contains_loop : List Segment → ℕ → ℕ
contains_loop [] asn = 0
contains_loop (s ∷ p) asn = if path_segment_contains s asn == 0 then contains_loop p asn else 1

-- 1 if the path holds the AS number, 0 otherwise.
unfoldable pub path_contains : Option AsPath → ℕ → ℕ
unfolding contains_loop path_segment_contains
path_contains none asn = 0
path_contains (some p) asn = contains_loop p asn

-- What the loop over one segment in path_at does: return a value, or go on at another position.
pub data Scan : Type 0 where
  found : ℕ → Scan
  go_on : ℕ → Scan

-- for (seg_index= 0; seg_index; seg_index++), on `fuel` rounds; seg_index itself is the condition.
unfoldable pub sequence_scan : ℕ → ℕ → List ℕ → ℕ → Scan
sequence_scan zero seg_index xs position = go_on position
sequence_scan (suc fuel) seg_index xs position = elim (seg_index == 0) [
  | true ↦ go_on position
  | false ↦ elim (position == 0) [
    | true ↦ elim (get_elem? xs seg_index) [ none ↦ go_on position | some a ↦ found a ]
    | false ↦ sequence_scan fuel (seg_index + 1) xs (position + 1)
  ]
]

abbrev first_or_zero : List ℕ → ℕ
first_or_zero [] = 0
first_or_zero (a ∷ xs) = a

segment_scan : SegmentType → List ℕ → ℕ → Option Scan
unfolding sequence_scan
segment_scan sequence xs position = some (sequence_scan (suc (length xs)) 0 xs position)
segment_scan set xs position =
    some (if position == 0 then found (first_or_zero xs) else go_on (position + 1))
segment_scan _ xs position = none

at_loop : List Segment → ℕ → Option ℤ
unfolding segment_scan
at_loop [] position = some minus_one
at_loop (s ∷ p) position = elim (ltb 0 position) [
  | false ↦ some minus_one
  | true ↦ elim (segment_scan s.type s.asns position) [
    | none ↦ none
    | some (found a) ↦ some (pos a)
    | some (go_on position') ↦ at_loop p position'
  ]
]

-- Positions that are not negative, as its callers pass them.
unfoldable pub path_at : Option AsPath → ℕ → Option ℤ
unfolding at_loop
path_at none position = some minus_one
path_at (some p) position = at_loop p position

abbrev last_of : List ℕ → Option ℤ
last_of [] = none
last_of (a ∷ []) = some (pos a)
last_of (a ∷ b ∷ xs) = last_of (b ∷ xs)

abbrev first_of_list : List ℕ → Option ℤ
first_of_list [] = none
first_of_list (a ∷ xs) = some (pos a)

abbrev assert_sequence : SegmentType → Option ℤ → Option ℤ
assert_sequence sequence r = r
assert_sequence _ r = none

abbrev last_segment : Segment → List Segment → Segment
last_segment s [] = s
last_segment s (t ∷ p) = last_segment t p

abbrev last_as : AsPath → Option ℤ
last_as [] = none
last_as (s ∷ p) = let t = last_segment s p in assert_sequence t.type (last_of t.asns)

abbrev first_as : AsPath → Option ℤ
first_as [] = none
first_as (s ∷ p) = assert_sequence s.type (first_of_list s.asns)

abbrev on_path : Option AsPath → (AsPath → Option ℤ) → Option ℤ
on_path none f = none
on_path (some p) f = f p

-- -1 on a path with no hop; `none` if an assertion on the segment fails.
unfoldable pub path_last_as : Option AsPath → Option ℤ
unfolding path_length
path_last_as p = path_length p >>= λ n. if leb n 0 then some minus_one else on_path p last_as

unfoldable pub path_first_as : Option AsPath → Option ℤ
unfolding path_length
path_first_as p = path_length p >>= λ n. if leb n 0 then some minus_one else on_path p first_as

-- path_hash: `a` and `hash` are uint32 variables.
hash_segment : List ℕ → ℕ → ℕ → ℕ × ℕ
hash_segment [] a hash = (a, hash)
hash_segment (x ∷ xs) a hash =
    hash_segment xs ((a * 27183) % 2 ^ 32 % 65520) ((a * hash + x) % 2 ^ 32 % 65521)

hash_loop : List Segment → ℕ → ℕ → ℕ
hash_loop [] a hash = hash
hash_loop (s ∷ p) a hash = let (a', hash') = hash_segment s.asns a hash in hash_loop p a' hash'

unfoldable pub path_hash : Option AsPath → ℕ
unfolding hash_segment hash_loop
path_hash none = 0
path_hash (some p) = hash_loop p 31415 0

equals_loop : List Segment → List Segment → Option Bool
unfolding path_segment_equals
equals_loop (s ∷ p) (t ∷ q) = path_segment_equals false s t >>= λ e.
    let rest = equals_loop p q in if e then rest else some false
equals_loop _ _ = some true

abbrev pub segments_of : Option AsPath → AsPath
segments_of none = []
segments_of (some p) = p

-- `alias` tells whether the two pointers are equal. Two paths never share a segment.
unfoldable pub path_equals : Bool → Option AsPath → Option AsPath → Option Bool
unfolding equals_loop
path_equals alias p q =
    if alias
    then some true
    else if path_num_segments p == path_num_segments q
    then equals_loop (segments_of p) (segments_of q)
    else some false

cmp_loop : List Segment → List Segment → Ordering
unfolding path_segment_cmp
cmp_loop (s ∷ p) (t ∷ q) = elim (path_segment_cmp s t) [ Ordering.eq ↦ cmp_loop p q | r ↦ r ]
cmp_loop _ _ = Ordering.eq

cmp_segments : AsPath → AsPath → Ordering
unfolding cmp_loop
cmp_segments p q =
    if ltb (length p) (length q)
    then Ordering.lt
    else if ltb (length q) (length p)
    then Ordering.gt
    else cmp_loop p q

-- -1, 0 and 1 of the source are lt, eq and gt.
unfoldable pub path_cmp : Bool → Option AsPath → Option AsPath → Ordering
unfolding cmp_segments
path_cmp true p q = Ordering.eq
path_cmp false none none = Ordering.eq
path_cmp false none (some q) = if length q == 0 then Ordering.eq else Ordering.lt
path_cmp false (some p) none = if length p == 0 then Ordering.eq else Ordering.gt
path_cmp false (some p) (some q) = cmp_segments p q

-- The loop of path_comparison over the positions from `index`, on `rounds` rounds: the value
-- returned from inside the loop, or the inner `none` at its end.
comparison_loop : ℕ → ℕ → Option AsPath → Option AsPath → Option (Option ℤ)
unfolding path_at
comparison_loop zero index p q = some none
comparison_loop (suc rounds) index p q = path_at p index >>= λ a. path_at q index >>= λ b.
    let rest = comparison_loop rounds (index + 1) p q in
    if ltb_ℤ a b then some (some minus_one) else if ltb_ℤ b a then some (some (pos 1)) else rest

abbrev pub int_of : Bool → ℤ
int_of true = pos 1
int_of false = pos 0

abbrev or_equals : Bool → Option AsPath → Option AsPath → Option ℤ → Option ℤ
or_equals alias p q none = path_equals alias p q >>= λ e. some (int_of e)
or_equals alias p q (some r) = some r

unfoldable pub path_comparison : Bool → Option AsPath → Option AsPath → Option ℤ
unfolding path_length path_equals comparison_loop
path_comparison alias p q = path_length p >>= λ m.
    path_length q >>= λ n. comparison_loop (if ltb m n then m else n) 0 p q >>= or_equals alias p q

abbrev kept : Option Segment → AsPath → AsPath
kept none p = p
kept (some s) p = s ∷ p

-- A segment that lost all its AS numbers leaves the path. `none` is a lack of fuel.
unfoldable pub path_remove_private : AsPath → Option AsPath
unfolding path_segment_remove_private
path_remove_private [] = some []
path_remove_private (s ∷ p) =
    path_segment_remove_private s >>= λ s'. path_remove_private p >>= λ p'. some (kept s' p')
