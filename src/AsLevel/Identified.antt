-- ===== src/AsLevel/Identified.antt =====
-- Which domains the removal of a group marks (src/bgp/aslevel/filter.c).
use cbgp.Base.{
  ℕ, ◌≡◌, refl, sym, ap, ◌∙◌, arith, Bool, true, false, ◌&&◌, ◌||◌, Option, none, some, List, [],
  ◌∷◌, ltb, ◌==◌, ==_iff, if◌then◌else◌, ◌>>=◌, All, bind_some, any_intro,
}
use cbgp.AsLevel.{Domain, asn_of, find_domain, num_customers, num_providers}
use cbgp.AsLevel.Arrays.{change_at}
use cbgp.AsLevel.Consistent.{All_intro}
use cbgp.AsLevel.Groups.{
  Group, stubs, single_homed_stubs, peer_to_peer, keep_top, other, in_set, mark, identify, numbers,
}

-- The domains of a group: stubs have no customers, whether they have a provider or not, and those of
-- them with one provider are single-homed; only domains without providers are at the top.
abbrev belongs : Group → Domain → Bool
belongs stubs d = num_customers d == 0
belongs single_homed_stubs d = num_customers d == 0 && num_providers d == 1
belongs keep_top d = ltb 0 (num_providers d)
belongs _ d = false

-- The groups that the switch only reads.
abbrev pub IsGroup : Group → Type 0
IsGroup stubs = Unit
IsGroup single_homed_stubs = Unit
IsGroup keep_top = Unit
IsGroup _ = ⊥

abbrev pub member : Group → Option Domain → Bool
member g none = false
member g (some d) = belongs g d

mark_lem :
    (g : Group) (ds : List Domain) (d : Domain) → IsGroup g → mark g ds d ≡ some (belongs g d, d)
unfolding mark
mark_lem stubs ds d i = refl
mark_lem single_homed_stubs ds d i = refl
mark_lem keep_top ds d i = refl
mark_lem peer_to_peer ds d i = absurd i
mark_lem other ds d i = absurd i

-- A change that puts back what was found.
change_at_same :
    (k : ℕ) (d : Domain) (ds : List Domain)
    → find_domain ds k ≡ some d
    → change_at asn_of k (λ _. d) ds ≡ ds
change_at_same k d [] e = refl
change_at_same k d (c ∷ ds) e = ground (arith, e, change_at_same k d ds)

identify_lem :
    (g : Group) (ds : List Domain) (nums set : List ℕ)
    → IsGroup g
    → All (λ (a : ℕ). (d : Domain) × (find_domain ds a ≡ some d)) nums
    → (out : List ℕ) × (identify g nums ds set ≡ some (out, ds))
      × ((a : ℕ) → in_set out a ≡ ((in_set nums a && member g (find_domain ds a)) || in_set set a))
unfolding identify
identify_lem g ds [] set i h = (set, refl, λ a. refl)
identify_lem g ds (n ∷ nums) set i h =
    let (d, f) = h.0 in
    let (out, p, q) = identify_lem g ds nums (if belongs g d then n ∷ set else set) i h.1 in
    (
      out,
      bind_some (find_domain ds n) d (λ c. mark g ds c >>= step) f
          ∙ bind_some (mark g ds d) (belongs g d, d) step (mark_lem g ds d i)
          ∙ ap (λ (cs : List Domain). identify g nums cs (if belongs g d then n ∷ set else set))
              (change_at_same n d ds f)
          ∙ p,
      λ a. q a ∙ joined a (belongs g d) (in_set nums a) (member g (find_domain ds a)) (owned a d f),
    )
  where
    step : Bool × Domain → Option (List ℕ × List Domain)
    step q = identify g nums (change_at asn_of n (λ _. q.1) ds) (if q.0 then n ∷ set else set)

    owned :
        (a : ℕ) (d : Domain)
        → find_domain ds n ≡ some d
        → (n == a) ≡ true
        → member g (find_domain ds a) ≡ belongs g d
    owned a d f e =
        ap (λ (m : ℕ). member g (find_domain ds m)) (sym ((==_iff n a).0 e)) ∙ ap (member g) f

    put :
        (na x m s : Bool)
        → (na ≡ true → m ≡ true)
        → ((x && m) || (na || s)) ≡ (((na || x) && m) || s)
    put true x m s h = rw (h refl) (whole x s)
      where
        whole : (x s : Bool) → ((x && true) || true) ≡ true
        whole true s = refl
        whole false s = refl
    put false x m s h = refl

    left_out :
        (na x m s : Bool) → (na ≡ true → m ≡ false) → ((x && m) || s) ≡ (((na || x) && m) || s)
    left_out true x m s h = rw (h refl) (nothing x s)
      where
        nothing : (x s : Bool) → ((x && false) || s) ≡ s
        nothing true s = refl
        nothing false s = refl
    left_out false x m s h = refl

    joined :
        (a : ℕ) (b x m : Bool)
        → ((n == a) ≡ true → m ≡ b)
        → ((x && m) || in_set (if b then n ∷ set else set) a)
          ≡ ((((n == a) || x) && m) || in_set set a)
    joined a true x m k = put (n == a) x m (in_set set a) k
    joined a false x m k = left_out (n == a) x m (in_set set a) k

find_domain-numbers :
    (ds : List Domain) (a : ℕ)
    → in_set (numbers ds) a ≡ (elim (find_domain ds a) [ none ↦ false | some _ ↦ true ])
find_domain-numbers [] a = refl
find_domain-numbers (d ∷ ds) a = ground (arith, find_domain-numbers ds a)

pub identify_all :
    (g : Group) (ds : List Domain)
    → IsGroup g
    → (out : List ℕ) × (identify g (numbers ds) ds [] ≡ some (out, ds))
      × ((a : ℕ) → in_set out a ≡ member g (find_domain ds a))
identify_all g ds i =
    let (out, p, q) = identify_lem g ds (numbers ds) [] i (
      All_intro Found (numbers ds) (λ a j. found a (find_domain ds a) refl (
        sym (find_domain-numbers ds a)
        ∙ any_intro (λ b. b == a) a (numbers ds) j ((==_iff a a).1 refl)))) in
    (
      out,
      p,
      λ a.
          q a
          ∙ ap (λ (b : Bool). (b && member g (find_domain ds a)) || false)
              (find_domain-numbers ds a)
          ∙ own (find_domain ds a),
    )
  where
    Found : ℕ → Type 0
    Found a = (d : Domain) × (find_domain ds a ≡ some d)

    found :
        (a : ℕ) (o : Option Domain)
        → find_domain ds a ≡ o
        → (elim o [ none ↦ false | some _ ↦ true ]) ≡ true
        → Found a
    found a none e h = absurd (cc)
    found a (some d) e h = (d, e)

    own :
        (o : Option Domain)
        → (((elim o [ none ↦ false | some _ ↦ true ]) && member g o) || false) ≡ member g o
    own none = refl
    own (some d) = ground arith
