-- ===== src/AsLevel/Connected/Measure.antt =====
-- What is left to do in the search of src/bgp/aslevel/as-level.c.
use cbgp.Base.{
  ℕ, suc, ◌+◌, ◌≤◌, ◌≡◌, arith, false, some, List, [], ◌∷◌, length, ◌==◌, if◌then◌else◌, Bool-cases,
  inl, inr, ==_iff,
}
use cbgp.AsLevel.{Link, Domain, find_domain}
use cbgp.AsLevel.Groups.{in_set}
use cbgp.AsLevel.Connected.{search_rounds}

-- The domains that are not visited yet, and the rounds that they will take.
abbrev pub unseen : List Domain → List ℕ → ℕ
unseen [] v = 0
unseen (d ∷ ds) v = (if in_set v d.asn then 0 else 1) + unseen ds v

abbrev pub rounds_ahead : List Domain → List ℕ → ℕ
rounds_ahead [] v = 0
rounds_ahead (d ∷ ds) v =
    (if in_set v d.asn then 0 else suc (length d.neighbors)) + rounds_ahead ds v

abbrev pub stack_rounds : List (List Link) → ℕ
stack_rounds [] = 0
stack_rounds (ls ∷ stack) = suc (length ls) + stack_rounds stack

pub unseen-le : (ds : List Domain) (v : List ℕ) → unseen ds v ≤ length ds
unseen-le [] v = omega arith
unseen-le (d ∷ ds) v = ground (arith, unseen-le ds v)

pub rounds_ahead-le : (ds : List Domain) (v : List ℕ) → rounds_ahead ds v ≤ search_rounds ds
rounds_ahead-le [] v = omega arith
rounds_ahead-le (d ∷ ds) v = ground (arith, rounds_ahead-le ds v)

unseen_mono : (ds : List Domain) (v : List ℕ) (a : ℕ) → unseen ds (a ∷ v) ≤ unseen ds v
unseen_mono [] v a = omega arith
unseen_mono (d ∷ ds) v a = ground (arith, unseen_mono ds v a)

rounds_mono : (ds : List Domain) (v : List ℕ) (a : ℕ) → rounds_ahead ds (a ∷ v) ≤ rounds_ahead ds v
rounds_mono [] v a = omega arith
rounds_mono (d ∷ ds) v a = ground (arith, rounds_mono ds v a)

-- A domain that is visited for the first time leaves less.
pub unseen-visit :
    (ds : List Domain) (v : List ℕ) (a : ℕ) (c : Domain)
    → find_domain ds a ≡ some c
    → in_set v a ≡ false
    → unseen ds (a ∷ v) + 1 ≤ unseen ds v
unseen-visit [] v a c e h = absurd (cc)
unseen-visit (d ∷ ds) v a c e h = elim (Bool-cases (d.asn == a)) [
  | inl t ↦ let q : d.asn ≡ a = (==_iff d.asn a).0 t in rw q (ground (arith, h, unseen_mono ds v a))
  | inr t ↦ ground (arith, t, unseen-visit ds v a c (rw t at e) h)
]

pub rounds_ahead-visit :
    (ds : List Domain) (v : List ℕ) (a : ℕ) (c : Domain)
    → find_domain ds a ≡ some c
    → in_set v a ≡ false
    → rounds_ahead ds (a ∷ v) + suc (length c.neighbors) ≤ rounds_ahead ds v
rounds_ahead-visit [] v a c e h = absurd (cc)
rounds_ahead-visit (d ∷ ds) v a c e h = elim (Bool-cases (d.asn == a)) [
  | inl t ↦ ground (arith, t, h, e, rounds_mono ds v a)
  | inr t ↦ ground (arith, t, rounds_ahead-visit ds v a c (rw t at e) h)
]
