-- ===== src/Attr/Path/Hash.antt =====
-- path_hash (src/bgp/attr/path.c): its uint32 arithmetic never wraps.
use cbgp.Base.{
  ℕ, ◌+◌, ◌*◌, ◌%◌, ◌≤◌, ◌<◌, ◌≡◌, refl, sym, ◌∙◌, some, List, [], ◌∷◌, ◌++◌, arith, All,
}
use cbgp.Attr.Path.{AsPath, hash_segment, hash_loop, path_hash}
use cbgp.Attr.Path.Append.{flat}

-- The reference: a polynomial hash over all the AS numbers of the path, in unbounded arithmetic.
pub hash_numbers : List ℕ → ℕ → ℕ → ℕ
hash_numbers [] a hash = hash
hash_numbers (x ∷ xs) a hash = hash_numbers xs ((a * 27183) % 65520) ((a * hash + x) % 65521)

mul_bound : (a h : ℕ) → a < 65520 → h < 65521 → a * h ≤ 65519 * 65520
mul_bound a h p q = grind arith

hash_segment_lem :
    (xs ys : List ℕ) (a hash : ℕ)
    → a < 65520
    → hash < 65521
    → All (λ x. x < 65536) xs
    → let r = hash_segment xs a hash in
      (r.0 < 65520) × (r.1 < 65521) × (hash_numbers (xs ++ ys) a hash ≡ hash_numbers ys r.0 r.1)
unfolding hash_segment hash_numbers
hash_segment_lem [] ys a hash p q w = (p, q, refl)
hash_segment_lem (x ∷ xs) ys a hash p q w =
    rw (hash_segment, hash_numbers, no_wrap_a, no_wrap_hash)
      (hash_segment_lem xs ys ((a * 27183) % 65520) ((a * hash + x) % 65521) (omega arith)
        (omega arith) w.1)
  where
    no_wrap_a : (a * 27183) % 4294967296 ≡ a * 27183
    no_wrap_a = omega arith

    no_wrap_hash : (a * hash + x) % 4294967296 ≡ a * hash + x
    no_wrap_hash = omega (arith, mul_bound a hash p q, w.0)

hash_loop_lem :
    (p : AsPath) (a hash : ℕ)
    → a < 65520
    → hash < 65521
    → All (λ s. All (λ x. x < 65536) s.asns) p
    → (hash_loop p a hash ≡ hash_numbers (flat p) a hash) × (hash_loop p a hash < 65521)
unfolding hash_loop
hash_loop_lem [] a hash u v w = unfold hash_numbers in (refl, v)
hash_loop_lem (s ∷ p) a hash u v w =
    let (b, h, e) = hash_segment_lem s.asns (flat p) a hash u v w.0 in
    let r = hash_segment s.asns a hash in
    let rest = hash_loop_lem p r.0 r.1 b h w.1 in (rest.0 ∙ sym e, rest.1)

-- On uint16 AS numbers the uint32 arithmetic of path_hash never wraps: the result is the polynomial
-- hash of the AS numbers in unbounded arithmetic, and lies below 65521.
pub path_hash_lem :
    (p : AsPath)
    → All (λ s. All (λ x. x < 65536) s.asns) p
    → (path_hash (some p) ≡ hash_numbers (flat p) 31415 0) × (path_hash (some p) < 65521)
unfolding path_hash
path_hash_lem p w = hash_loop_lem p 31415 0 (omega arith) (omega arith) w
