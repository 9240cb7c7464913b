-- ===== src/Attr/Comm.antt =====
-- Communities: src/bgp/attr/comm.c. A Communities attribute is the list of its values, whose count
-- is an unsigned char; a NULL attribute is `none`.
pub mod Laws
use Prim.Native.Nat.{Ordering}
use cbgp.Base.{
  ℕ, ◌≡◌, Bool, true, false, Option, none, some, List, [], ◌∷◌, ◌++◌, length, ltb, ◌==◌,
  if◌then◌else◌,
}
use cbgp.Attr.Segment.{same_asns, cmp_asns}

abbrev pub comm_no_export : ℕ
comm_no_export = 4294967041

abbrev pub comm_no_advertise : ℕ
comm_no_advertise = 4294967042

-- The assertion is on the count; memory is never exhausted.
unfoldable pub comms_add : List ℕ → ℕ → Option (List ℕ)
comms_add comms comm = if ltb (length comms) 255 then some (comms ++ comm ∷ []) else none

-- The loop that moves the values that stay to the front.
unfoldable pub remove_loop : List ℕ → ℕ → List ℕ
remove_loop [] comm = []
remove_loop (x ∷ xs) comm = let rest = remove_loop xs comm in if x == comm then rest else x ∷ rest

-- An attribute that loses its last value is freed; one that loses none is left as it is.
abbrev pub shrunk : List ℕ → List ℕ → Option (List ℕ)
shrunk comms left =
    if length comms == length left then some comms else if length left == 0 then none else some left

unfoldable pub comms_remove : Option (List ℕ) → ℕ → Option (List ℕ)
unfolding remove_loop
comms_remove none comm = none
comms_remove (some comms) comm = shrunk comms (remove_loop comms comm)

abbrev pub contains_value : List ℕ → ℕ → Bool
contains_value [] comm = false
contains_value (x ∷ xs) comm = if x == comm then true else contains_value xs comm

unfoldable pub comms_contains : Option (List ℕ) → ℕ → Bool
comms_contains none comm = false
comms_contains (some comms) comm = contains_value comms comm

-- `alias` tells whether the two pointers are equal, as two null pointers are.
unfoldable pub comms_equals : Bool → Option (List ℕ) → Option (List ℕ) → Bool
comms_equals true c d = true
comms_equals false (some c) (some d) = if length c == length d then same_asns c d else false
comms_equals false none none = true
comms_equals false _ _ = false

cmp_values : List ℕ → List ℕ → Ordering
unfolding cmp_asns
cmp_values c d =
    if ltb (length c) (length d)
    then Ordering.lt
    else if ltb (length d) (length c)
    then Ordering.gt
    else cmp_asns c d

unfoldable pub comms_cmp : Bool → Option (List ℕ) → Option (List ℕ) → Ordering
unfolding cmp_values
comms_cmp true c d = Ordering.eq
comms_cmp false none none = Ordering.eq
comms_cmp false none (some d) = if length d == 0 then Ordering.eq else Ordering.lt
comms_cmp false (some c) none = if length c == 0 then Ordering.eq else Ordering.gt
comms_cmp false (some c) (some d) = cmp_values c d
