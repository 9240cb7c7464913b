-- ===== src/Attr/Comm/Laws.antt =====
-- What the operations on communities do to the values (src/bgp/attr/comm.c).
use Prim.Native.Nat.{Ordering}
use cbgp.Base.{
  ℕ, ◌+◌, ◌<◌, ◌≡◌, ◌↔◌, inl, inr, refl, true, false, Option, none, some, List, [], ◌∷◌, ◌++◌,
  arith, In, keep, not, length, length-append, length-keep-le, In-keep, Bool-cases, ◌==◌, lt→ltb,
  ap, subst, In-append_left, In-append_right, ◌∙◌,
}
use cbgp.Attr.Segment.Order.{flip, cmp_asns_eq, cmp_asns_refl, cmp_asns-flip, same_asns_iff}
use cbgp.Attr.Comm.{
  comms_add, remove_loop, comms_remove, shrunk, contains_value, comms_contains, comms_equals,
  cmp_values, comms_cmp,
}

-- The values of an attribute; a NULL attribute has none.
abbrev pub values : Option (List ℕ) → List ℕ
values none = []
values (some c) = c

contains_value_iff : (c : List ℕ) (a : ℕ) → (contains_value c a ≡ true) ↔ In a c
contains_value_iff [] a = (λ e. absurd (cc), λ i. absurd i)
contains_value_iff (x ∷ c) a = elim (Bool-cases (x == a)) [
  | inl e ↦ rw e (λ _. inl (ground arith), λ _. refl)
  | inr e ↦ rw e (
    λ h. inr ((contains_value_iff c a).0 h),
    λ i. elim i [ inl q ↦ absurd (ground arith) | inr j ↦ (contains_value_iff c a).1 j ],
  )
]

-- comms_contains answers 1 exactly if the community is among the values of the attribute.
pub comms_contains_iff :
    (c : Option (List ℕ)) (a : ℕ) → (comms_contains c a ≡ true) ↔ In a (values c)
unfolding comms_contains
comms_contains_iff none a = (λ e. absurd (cc), λ i. absurd i)
comms_contains_iff (some c) a = contains_value_iff c a

-- The values other than one.
abbrev pub without : ℕ → List ℕ → List ℕ
without a = keep (λ x. not (x == a))

remove_loop_lem : (c : List ℕ) (a : ℕ) → remove_loop c a ≡ without a c
unfolding remove_loop
remove_loop_lem [] a = refl
remove_loop_lem (x ∷ c) a = ground (arith, remove_loop_lem c a)

without_same : (a : ℕ) (c : List ℕ) → length c ≡ length (without a c) → without a c ≡ c
without_same a [] h = refl
without_same a (x ∷ c) h = elim (Bool-cases (x == a)) [
  | inl e ↦ absurd (ground (arith, e, h, length-keep-le (λ y. not (y == a)) c))
  | inr e ↦ rw e (ap (◌∷◌ x) (without_same a c (ground (arith, e, h))))
]

shrunk_lem : (c d : List ℕ) → (length c ≡ length d → d ≡ c) → values (shrunk c d) ≡ d
shrunk_lem c [] h = ground (arith, h)
shrunk_lem c (x ∷ d) h = ground (arith, h)

absent : (c : Option (List ℕ)) (a : ℕ) → (In a (values c) → ⊥) → comms_contains c a ≡ false
absent c a h = elim (Bool-cases (comms_contains c a)) [
  | inl e ↦ absurd (h ((comms_contains_iff c a).0 e))
  | inr e ↦ e
]

-- Removing a community leaves exactly the other values, in their order, and the community is not
-- found afterwards.
pub comms_remove_lem :
    (c : Option (List ℕ)) (a : ℕ)
    → (values (comms_remove c a) ≡ without a (values c))
      × (comms_contains (comms_remove c a) a ≡ false)
unfolding comms_remove
comms_remove_lem none a = (refl, absent none a (λ i. absurd i))
comms_remove_lem (some c) a =
    (left, absent (shrunk c (remove_loop c a)) a (λ i. gone (subst (In a) left i)))
  where
    left : values (shrunk c (remove_loop c a)) ≡ without a c
    left =
        shrunk_lem c (remove_loop c a)
          (λ h. remove_loop_lem c a ∙ without_same a c (h ∙ ap length (remove_loop_lem c a)))
        ∙ remove_loop_lem c a

    gone : In a (without a c) → ⊥
    gone i = ground (arith, In-keep (λ x. not (x == a)) a c i)

-- Adding a community to an attribute of fewer than 255 values succeeds; afterwards it is found, and
-- so is every community that was found before.
pub comms_add_lem :
    (c : List ℕ) (a : ℕ)
    → length c < 255
    → (d : List ℕ) × (comms_add c a ≡ some d)
      × (length d ≡ length c + 1)
      × (comms_contains (some d) a ≡ true)
      × ((b : ℕ) → comms_contains (some c) b ≡ true → comms_contains (some d) b ≡ true)
unfolding comms_add
comms_add_lem c a h = (
  c ++ a ∷ [],
  rw (lt→ltb (length c) 255 h),
  length-append c (a ∷ []),
  (comms_contains_iff (some (c ++ a ∷ [])) a).1 (In-append_right a c (a ∷ []) (inl refl)),
  λ b e.
      (comms_contains_iff (some (c ++ a ∷ [])) b).1
        (In-append_left b c (a ∷ []) ((comms_contains_iff (some c) b).0 e)),
)

-- comms_equals tells NULL from an empty attribute, and otherwise compares the values in order.
pub comms_equals_iff : (c d : Option (List ℕ)) → (comms_equals false c d ≡ true) ↔ (c ≡ d)
unfolding comms_equals
comms_equals_iff none none = (λ _. refl, λ _. refl)
comms_equals_iff none (some d) = (λ e. absurd (cc), λ e. absurd (cc))
comms_equals_iff (some c) none = (λ e. absurd (cc), λ e. absurd (cc))
comms_equals_iff (some c) (some d) = (
  λ e. ap some ((same_asns_iff c d).0 (ground arith)),
  λ e. let q : c ≡ d = cc (e) in ground (arith, ap length q, (same_asns_iff c d).1 q),
)

-- comms_cmp, by which the repository of communities is searched, answers 0 exactly on attributes of
-- the same values in the same order, NULL counting as empty; swapping the arguments swaps the sign.
pub comms_cmp_lem :
    (c d : Option (List ℕ))
    → ((comms_cmp false c d ≡ Ordering.eq) ↔ (values c ≡ values d))
      × (comms_cmp false d c ≡ flip (comms_cmp false c d))
unfolding comms_cmp cmp_values
comms_cmp_lem none none = ((λ _. refl, λ _. refl), refl)
comms_cmp_lem none (some []) = ((λ _. refl, λ _. refl), refl)
comms_cmp_lem none (some (x ∷ d)) = ((λ e. absurd (ground arith), λ e. absurd (cc)), ground arith)
comms_cmp_lem (some []) none = ((λ _. refl, λ _. refl), refl)
comms_cmp_lem (some (x ∷ c)) none = ((λ e. absurd (ground arith), λ e. absurd (cc)), ground arith)
comms_cmp_lem (some c) (some d) = (
  (λ e. cmp_asns_eq c d (ground arith) (ground arith), λ e. rw e (ground (arith, cmp_asns_refl d))),
  ground (arith, cmp_asns-flip c d),
)
