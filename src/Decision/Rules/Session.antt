-- ===== src/Decision/Rules/Session.antt =====
-- dp_rule_ebgp_over_ibgp (src/bgp/dp_rules.c).
use cbgp.Base.{
  ◌≤◌, ◌≡◌, ◌≢◌, refl, sym, ap, ◌∙◌, Bool, true, false, some, List, [], ◌∷◌, arith, In, keep, any,
  leb, le→leb, ◌==◌, inl, inr, Bool-cases, keep_cong, keep-every, all_intro, all-In, any-In,
  any_intro, Bool_of_iff,
}
use cbgp.Route.{Route}
use cbgp.Decision.{Router, MedType, any_ebgp, discard_ibgp, dp_rule_ebgp_over_ibgp}
use cbgp.Decision.Select.{minimal, is_lowest}
use cbgp.Decision.Keys.{key_session, Comparable}

module _ (med : MedType) (router : Router) (x : Route) (xs : List Route)
    (comparable : Comparable med router (x ∷ xs)) where
  any_ebgp_lem :
      (rs : List Route)
      → ((r : Route) → In r rs → In r (x ∷ xs))
      → any_ebgp router rs ≡ some (any (λ r. key_session router r == 0) rs)
  unfolding any_ebgp
  any_ebgp_lem [] h = refl
  any_ebgp_lem (r ∷ rs) h =
      let c = comparable r (h r (inl refl)) in
      rw (c.has_peer, any_ebgp_lem rs (λ s i. h s (inr i))) (ground (arith, c.has_peer))

  discard_ibgp_lem :
      (rs : List Route)
      → ((r : Route) → In r rs → In r (x ∷ xs))
      → discard_ibgp router rs ≡ some (keep (λ r. key_session router r == 0) rs)
  unfolding discard_ibgp
  discard_ibgp_lem [] h = refl
  discard_ibgp_lem (r ∷ rs) h =
      let c = comparable r (h r (inl refl)) in
      rw (c.has_peer, discard_ibgp_lem rs (λ s i. h s (inr i)))
        (elim (Bool-cases (c.peer.asn == router.asn)) [ inl e ↦ rw e | inr e ↦ rw e ])

  -- On comparable routes: if some route was learned over eBGP, those learned over iBGP are discarded;
  -- otherwise all stay.
  pub ebgp_over_ibgp_rule :
      dp_rule_ebgp_over_ibgp router (x ∷ xs) ≡ some (minimal (key_session router) (x ∷ xs))
  unfolding dp_rule_ebgp_over_ibgp
  ebgp_over_ibgp_rule =
      rw (any_ebgp_lem (x ∷ xs) (λ r i. i)) (elim (Bool-cases (any over_ebgp (x ∷ xs))) [
        | inl e ↦ rw e (
            discard_ibgp_lem (x ∷ xs) (λ r i. i)
            ∙ ap some (
                keep_cong over_ebgp _ (x ∷ xs) (λ r i.
                  Bool_of_iff _ _ (zero_lowest r) (lowest_zero r (any-In over_ebgp (x ∷ xs) e)))))
        | inr e ↦ rw e (ap some (sym (keep-every _ (x ∷ xs) (λ r i. all_lowest r e))))
      ])
    where
      over_ebgp : Route → Bool
      over_ebgp r = key_session router r == 0

      zero_lowest :
          (r : Route) → over_ebgp r ≡ true → is_lowest (key_session router) r (x ∷ xs) ≡ true
      zero_lowest r z =
          all_intro (λ s. leb (key_session router r) (key_session router s)) (x ∷ xs)
            (λ s j. ground (arith, z))

      lowest_zero :
          (r : Route)
          → (s : Route) × In s (x ∷ xs) × (over_ebgp s ≡ true)
          → is_lowest (key_session router) r (x ∷ xs) ≡ true
          → over_ebgp r ≡ true
      lowest_zero r (s, j, z) l =
          ground (
            arith,
            z,
            all-In (λ t. leb (key_session router r) (key_session router t)) s (x ∷ xs) l j,
          )

      session-le : (r : Route) → key_session router r ≤ 1
      session-le r = ground arith

      no_zero :
          (s : Route) → In s (x ∷ xs) → any over_ebgp (x ∷ xs) ≡ false → key_session router s ≢ 0
      no_zero s j e z = ground (arith, e, any_intro over_ebgp s (x ∷ xs) j (ground (arith, z)))

      all_lowest :
          (r : Route)
          → any over_ebgp (x ∷ xs) ≡ false
          → is_lowest (key_session router) r (x ∷ xs) ≡ true
      all_lowest r e =
          all_intro (λ s. leb (key_session router r) (key_session router s)) (x ∷ xs)
            (λ s j. le→leb _ _ (omega (arith, session-le r, no_zero s j e)))
