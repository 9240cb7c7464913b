-- ===== src/Attr/Path/Private.antt =====
-- path_remove_private (src/bgp/attr/path.c).
use cbgp.Base.{
  ℕ, ◌≤◌, ◌<◌, ◌≡◌, refl, ap, Option, some, List, [], ◌∷◌, ◌++◌, arith, length, All, if◌then◌else◌,
  Bool-cases, true, inl, inr,
}
use cbgp.Attr.Segment.{Segment, resized}
use cbgp.Attr.Segment.Private.{
  public, any_private, path_segment_remove_private_lem, public-All, public_of_none,
}
use cbgp.Attr.Path.{AsPath, kept, path_remove_private}
use cbgp.Attr.Path.Length.{IsWell, IsWellPath}
use cbgp.Attr.Path.Append.{flat}

public-append : (xs ys : List ℕ) → public (xs ++ ys) ≡ public xs ++ public ys
public-append [] ys = refl
public-append (a ∷ xs) ys = ground (arith, public-append xs ys)

length-public-le : (xs : List ℕ) → length (public xs) ≤ length xs
length-public-le [] = omega arith
length-public-le (a ∷ xs) = ground (arith, length-public-le xs)

-- What the removal leaves of p: the public AS numbers in order, in well-formed segments.
pub record Cleaned (p q : AsPath) : Type 0 where
  pub numbers : flat q ≡ public (flat p)
  pub well : IsWellPath q

-- A segment, and what is left of the path behind it.
kept_lem :
    (s : Segment) (p q : AsPath)
    → IsWell s
    → Cleaned p q
    → Cleaned
        (s ∷ p)
        (kept (if any_private s.asns then resized s (public s.asns) true else some s) q)
kept_lem s p q w c = elim (Bool-cases (any_private s.asns)) [
  | inl e ↦ rw e (go (public s.asns) refl)
  | inr e ↦ rw e (record {
    numbers = rw (c.numbers, public-append s.asns (flat p), public_of_none s.asns e);
    well = (w, c.well);
  })
]
  where
    go : (xs : List ℕ) → public s.asns ≡ xs → Cleaned (s ∷ p) (kept (resized s xs true) q)
    go [] e = record { numbers = rw (c.numbers, public-append s.asns (flat p), e); well = c.well }
    go (x ∷ xs) e = record {
      numbers = rw (c.numbers, public-append s.asns (flat p), e);
      well = (
        record {
          plain = w.plain;
          some_asn = omega arith;
          fits = omega (arith, w.fits, length-public-le s.asns, ap length e);
        },
        c.well,
      );
    }

-- On a well-formed path the loop ends; it leaves the public AS numbers of the path in their order,
-- and no other, in segments that are still well-formed (a segment that would be empty is taken out).
pub path_remove_private_lem :
    (p : AsPath)
    → IsWellPath p
    → (q : AsPath) × (path_remove_private p ≡ some q)
      × (flat q ≡ public (flat p))
      × IsWellPath q
      × All (λ a. a < 64512) (flat q)
unfolding path_remove_private
path_remove_private_lem [] w = ([], refl, refl, tt, tt)
path_remove_private_lem (s ∷ p) w =
    let (q, e, n, v, b) = path_remove_private_lem p w.1 in
    let left : Option Segment =
      if any_private s.asns then resized s (public s.asns) true else some s in
    let c : Cleaned (s ∷ p) (kept left q) = kept_lem s p q w.0 (record { numbers = n; well = v }) in
    (
      kept left q,
      rw (path_segment_remove_private_lem s, e),
      c.numbers,
      c.well,
      rw c.numbers (public-All (s.asns ++ flat p)),
    )
