-- ===== src/Examples/Paths.antt =====
-- AS-Paths of the form that C-BGP prints as "7 [30 40] 64512 5".
use cbgp.Base.{◌<◌, ◌≡◌, ◌↔◌, refl, false, some, [], ◌∷◌, arith, All, ok, ◌==◌}
use cbgp.Base.Int.{minus_one}
use Prim.Native.Nat.{Ordering}
use cbgp.Attr.Segment.{Segment, set, sequence, path_segment_equals}
use cbgp.Attr.Segment.Private.{public}
use cbgp.Attr.Segment.Order.{flip, path_segment_equals_set}
use cbgp.Attr.Path.{
  AsPath, path_append, prepend_loop, path_cmp, path_at, path_hash, path_remove_private,
}
use cbgp.Attr.Path.Length.{IsWellPath, IsWellPath-IsPlain}
use cbgp.Attr.Path.Append.{flat, AppendsTo, path_append_lem}
use cbgp.Attr.Path.Prepend.{Prepended, prepend_loop_lem}
use cbgp.Attr.Path.Order.{numbers, path_cmp_total_order}
use cbgp.Attr.Path.Position.{path_at_lem}
use cbgp.Attr.Path.Hash.{hash_numbers, path_hash_lem}
use cbgp.Attr.Path.Private.{path_remove_private_lem}

abbrev origin_part : Segment
origin_part = record { type = sequence; asns = 5 ∷ 64512 ∷ [] }

abbrev set_part : Segment
set_part = record { type = set; asns = 30 ∷ 40 ∷ [] }

abbrev mixed : AsPath
mixed = origin_part ∷ set_part ∷ []

mixed-IsWellPath : IsWellPath mixed
mixed-IsWellPath = omega arith

path_append_lem_example : AppendsTo mixed 7 (path_append mixed 7)
path_append_lem_example = path_append_lem mixed 7 mixed-IsWellPath

append_runs :
    path_append mixed 7
    ≡ ok (origin_part ∷ set_part ∷ record { type = sequence; asns = 7 ∷ [] } ∷ [], 3)
unfolding path_append
append_runs = refl

prepend_loop_lem_example : (q : AsPath) × (prepend_loop 3 mixed 7 ≡ ok q) × Prepended 3 mixed 7 q
prepend_loop_lem_example = prepend_loop_lem 3 mixed 7 mixed-IsWellPath (omega arith)

path_cmp_total_order_example :
    ((path_cmp false (some mixed) (some (origin_part ∷ [])) ≡ Ordering.eq)
      ↔ (numbers mixed ≡ numbers (origin_part ∷ [])))
    × (path_cmp false (some (origin_part ∷ [])) (some mixed)
        ≡ flip (path_cmp false (some mixed) (some (origin_part ∷ []))))
    × (path_cmp false (some mixed) (some (origin_part ∷ [])) ≡ Ordering.lt
        → path_cmp false (some (origin_part ∷ [])) (some []) ≡ Ordering.lt
        → path_cmp false (some mixed) (some []) ≡ Ordering.lt)
path_cmp_total_order_example = path_cmp_total_order mixed (origin_part ∷ []) []

path_remove_private_lem_example :
    (q : AsPath) × (path_remove_private mixed ≡ some q)
    × (flat q ≡ public (flat mixed))
    × IsWellPath q
    × All (λ a. a < 64512) (flat q)
path_remove_private_lem_example = path_remove_private_lem mixed mixed-IsWellPath

path_hash_lem_example :
    (path_hash (some mixed) ≡ hash_numbers (flat mixed) 31415 0) × (path_hash (some mixed) < 65521)
path_hash_lem_example = path_hash_lem mixed (omega arith)

path_at_lem_example : path_at (some mixed) 1 ≡ some minus_one
path_at_lem_example = path_at_lem mixed 1 (IsWellPath-IsPlain mixed mixed-IsWellPath)

abbrev to_24 : AsPath
to_24 = record { type = sequence; asns = 24 ∷ 23 ∷ 22 ∷ [] } ∷ []

abbrev to_99 : AsPath
to_99 = record { type = sequence; asns = 99 ∷ 23 ∷ 22 ∷ [] } ∷ []

-- Two different AS-SETs that are reported equal.
path_segment_equals_set_example :
    path_segment_equals false set_part (record { type = set; asns = 1 ∷ 2 ∷ [] }) ≡ some (2 == 2)
path_segment_equals_set_example = path_segment_equals_set (30 ∷ 40 ∷ []) (1 ∷ 2 ∷ [])
