-- ===== src/Net/Prefix.antt =====
-- IPv4 prefixes: src/net/prefix.c and the struct of src/net/ip.h. Addresses are below 2 ^ 32. A
-- prefix with a mask length above 32 fails an assertion, which is `none`.
pub mod Laws
use Prim.Native.Nat.{Ordering, compare}
use cbgp.Base.{
  ℕ, ◌-◌, ◌*◌, ◌/◌, ◌^◌, Bool, true, false, Option, none, some, leb, ltb, ◌==◌, if◌then◌else◌,
  ◌>>=◌,
}

pub record Prefix : Type 0 where
  pub network : ℕ
  pub mask : ℕ

abbrev pub shift_right : ℕ → ℕ → ℕ
shift_right a k = a / 2 ^ k

-- `address & _ip_address_mask(mask)`: the low 32 - mask bits are cleared.
unfoldable pub ip_address_masked : ℕ → ℕ → Option ℕ
ip_address_masked address mask =
    if leb mask 32
    then if mask == 0 then some 0 else some (address / 2 ^ (32 - mask) * 2 ^ (32 - mask))
    else none

unfoldable pub ip_address_cmp : ℕ → ℕ → Ordering
ip_address_cmp a b = if ltb b a then Ordering.gt else if ltb a b then Ordering.lt else Ordering.eq

-- `alias` tells whether the two pointers are equal.
unfoldable pub ip_prefix_cmp : Bool → Prefix → Prefix → Option Ordering
unfolding ip_address_cmp ip_address_masked
ip_prefix_cmp true p q = some Ordering.eq
ip_prefix_cmp false p q =
    if ltb p.mask q.mask
    then some Ordering.lt
    else if ltb q.mask p.mask
    then some Ordering.gt
    else ip_address_masked p.network p.mask >>= λ a.
        ip_address_masked q.network p.mask >>= λ b. some (ip_address_cmp a b)

unfoldable pub ip_address_in_prefix : ℕ → Prefix → Option Bool
ip_address_in_prefix address p =
    if leb p.mask 32
    then if p.mask == 0
      then some true
      else some (shift_right address (32 - p.mask) == shift_right p.network (32 - p.mask))
    else none

unfoldable pub ip_prefix_in_prefix : Prefix → Prefix → Option Bool
ip_prefix_in_prefix p q =
    if leb q.mask 32
    then if q.mask == 0
      then some true
      else if ltb p.mask q.mask
      then some false
      else some (shift_right p.network (32 - q.mask) == shift_right q.network (32 - q.mask))
    else none

unfoldable pub ip_prefix_ge_prefix : Prefix → Prefix → ℕ → Option Bool
unfolding ip_prefix_in_prefix
ip_prefix_ge_prefix p q mask =
    ip_prefix_in_prefix p q >>= λ t. if t then some (leb mask p.mask) else some false

unfoldable pub ip_prefix_le_prefix : Prefix → Prefix → ℕ → Option Bool
unfolding ip_prefix_in_prefix
ip_prefix_le_prefix p q mask =
    ip_prefix_in_prefix p q >>= λ t. if t then some (leb p.mask mask) else some false

unfoldable pub ip_prefix_mask : Prefix → Option Prefix
unfolding ip_address_masked
ip_prefix_mask p = ip_address_masked p.network p.mask >>= λ n. some (record p { network = n })
