-- ===== src/Examples/Prefixes.antt =====
-- Prefixes 10.0.0.0/8, 10.1.0.0/16 (written 10.1.2.3/16) and 10.1.2.0/24.
use Prim.Native.Nat.{Ordering}
use cbgp.Base.{ℕ, ◌-◌, ◌%◌, ◌^◌, ◌≡◌, refl, true, false, some, arith}
use cbgp.Net.Prefix.{
  Prefix, ip_address_in_prefix, ip_prefix_in_prefix, ip_prefix_mask, ip_prefix_cmp,
}
use cbgp.Net.Prefix.Laws.{prefix_mask_lem}

abbrev net_8 : Prefix
net_8 = record { network = 167772160; mask = 8 }

abbrev net_16 : Prefix
net_16 = record { network = 167838211; mask = 16 }

abbrev net_16' : Prefix
net_16' = record { network = 167837696; mask = 16 }

abbrev net_24 : Prefix
net_24 = record { network = 167838208; mask = 24 }

in_16 : ip_prefix_in_prefix net_16 net_8 ≡ some true
unfolding ip_prefix_in_prefix
in_16 = refl

in_24 : ip_prefix_in_prefix net_24 net_16 ≡ some true
unfolding ip_prefix_in_prefix
in_24 = refl

address_24 : ip_address_in_prefix 167838211 net_24 ≡ some true
unfolding ip_address_in_prefix
address_24 = refl

masked_16 : ip_prefix_cmp false net_16 net_16' ≡ some Ordering.eq
unfolding ip_prefix_cmp
masked_16 = refl

prefix_mask_lem_example :
    (q : Prefix) × (ip_prefix_mask net_16 ≡ some q)
    × (q.mask ≡ 16)
    × (q.network % 2 ^ (32 - 16) ≡ 0)
    × ((a : ℕ) → ip_address_in_prefix a q ≡ ip_address_in_prefix a net_16)
    × (ip_prefix_mask q ≡ some q)
prefix_mask_lem_example = prefix_mask_lem net_16 (omega arith)
