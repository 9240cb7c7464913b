-- ===== src/Filter/Matchers.antt =====
-- The constructors of compound predicates against what the predicates mean (src/bgp/filter/filter.c).
use cbgp.Base.{
  ℕ, ◌≡◌, refl, sym, ap, ◌∙◌, Bool, true, false, not, ◌&&◌, ◌||◌, Option, none, some, arith, leb,
  Bool-cases, inl, inr,
}
use cbgp.Attr.Path.{AsPath}
use cbgp.Route.{Route}
use cbgp.Filter.{
  Matcher, match_any, match_and, match_or, match_not, matcher_size, matcher_apply,
  filter_matcher_apply, match_compound, is_any, filter_match_and, filter_match_or, filter_match_not,
}

module _ (path_match : ℕ → Option AsPath → Option Bool) (r : Route) where
  abbrev value : Option Matcher → Option Bool
  value m = filter_matcher_apply path_match m r

  compound_value :
      (m : Matcher) (o : Option Matcher)
      → match_compound m ≡ some o
      → value o ≡ matcher_apply path_match m r
  compound_value m o h = elim (Bool-cases (leb (matcher_size m) 255)) [
    | inl e ↦ let q : some (some m) ≡ some o = rw e at h in ap value (sym (inside q))
    | inr e ↦ absurd (ground (arith, e, h))
  ]
    where
      inside : {a b : Option Matcher} → some a ≡ some b → a ≡ b
      inside q = cc

  any_value : (m : Option Matcher) → is_any m ≡ true → value m ≡ some true
  unfolding matcher_apply
  any_value none h = refl
  any_value (some match_any) h = refl
  any_value (some _) h = absurd (cc)

  true_of : (m : Option Matcher) (t : Bool) → is_any m ≡ true → value m ≡ some t → t ≡ true
  true_of m t h p = cc (any_value m h, p)

  same_value : (m o : Option Matcher) → some m ≡ some o → value o ≡ value m
  same_value m o h = ap value (inside h)
    where
      inside : some m ≡ some o → o ≡ m
      inside q = cc

  -- Where the matcher that filter_match_and builds is not too large, it matches a route on which
  -- both operands give an answer exactly if both match.
  pub filter_match_and_lem :
      (m n o : Option Matcher) (t u : Bool)
      → filter_match_and m n ≡ some o
      → value m ≡ some t
      → value n ≡ some u
      → value o ≡ some (t && u)
  unfolding filter_match_and matcher_apply
  filter_match_and_lem m n o t u h p q = elim (Bool-cases (is_any m)) [
    | inl e ↦ rw (true_of m t e p) (same_value n o (rw e at h) ∙ q)
    | inr e ↦ elim (Bool-cases (is_any n)) [
      | inl f ↦ same_value m o (rw (e, f) at h) ∙ p ∙ ap some (right_true t u (true_of n u f q))
      | inr f ↦ both m n e f (rw (e, f) at h) p q
    ]
  ]
    where
      right_true : (a b : Bool) → b ≡ true → a ≡ (a && b)
      right_true a b x = ground (arith, x)

      both :
          (m' n' : Option Matcher)
          → is_any m' ≡ false
          → is_any n' ≡ false
          → (elim m' [
            | none ↦ some n'
            | some a ↦ elim n' [ none ↦ some (some a) | some b ↦ match_compound (match_and a b) ]
          ])
            ≡ some o
          → value m' ≡ some t
          → value n' ≡ some u
          → value o ≡ some (t && u)
      both none n' e f g x y = absurd (cc)
      both (some a) none e f g x y = absurd (cc)
      both (some a) (some b) e f g x y = compound_value (match_and a b) o g ∙ ground (arith, x, y)

  pub filter_match_or_lem :
      (m n o : Option Matcher) (t u : Bool)
      → filter_match_or m n ≡ some o
      → value m ≡ some t
      → value n ≡ some u
      → value o ≡ some (t || u)
  unfolding filter_match_or matcher_apply
  filter_match_or_lem m n o t u h p q = elim (Bool-cases (is_any m)) [
    | inl e ↦ rw (true_of m t e p) (same_value none o (rw e at h))
    | inr e ↦ elim (Bool-cases (is_any n)) [
      | inl f ↦ same_value none o (rw (e, f) at h) ∙ ap some (right_true t u (true_of n u f q))
      | inr f ↦ both m n e f (rw (e, f) at h) p q
    ]
  ]
    where
      right_true : (a b : Bool) → b ≡ true → true ≡ (a || b)
      right_true a b x = ground (arith, x)

      both :
          (m' n' : Option Matcher)
          → is_any m' ≡ false
          → is_any n' ≡ false
          → (elim m' [
            | none ↦ some none
            | some a ↦ elim n' [ none ↦ some none | some b ↦ match_compound (match_or a b) ]
          ])
            ≡ some o
          → value m' ≡ some t
          → value n' ≡ some u
          → value o ≡ some (t || u)
      both none n' e f g x y = absurd (cc)
      both (some a) none e f g x y = absurd (cc)
      both (some a) (some b) e f g x y = compound_value (match_or a b) o g ∙ ground (arith, x, y)

  pub filter_match_not_lem :
      (m o : Option Matcher) (t : Bool)
      → filter_match_not m ≡ some o
      → value m ≡ some t
      → value o ≡ some (not t)
  unfolding filter_match_not matcher_apply
  filter_match_not_lem none o t h p = absurd (cc)
  filter_match_not_lem (some (match_not m)) o t h p = same_value (some m) o h ∙ ground (arith, p)
  filter_match_not_lem (some m) o t h p = compound_value (match_not m) o h ∙ ground (arith, p)
