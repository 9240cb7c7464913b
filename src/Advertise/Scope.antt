-- ===== src/Advertise/Scope.antt =====
-- The communities of an announced route: NO_ADVERTISE and NO_EXPORT (src/bgp/as.c).
use mathlib.Core.List.{append_assoc, append-nil}
use cbgp.Base.{
  ◌⊎◌, arith, ℕ, zero, suc, ◌+◌, ◌/◌, ◌%◌, ◌≡◌, ◌≢◌, refl, sym, ap, ◌∙◌, subst, Bool, true, false,
  ◌&&◌, Option, none, some, List, [], ◌∷◌, ◌++◌, In, In-append, replicate, ◌==◌, inl, inr, Outcome,
  ok, error, aborted, and_then-ok, ok_injective, if_error-ok, if◌then◌else◌, Bool-cases, ltb,
  length,
}
use cbgp.Attr.Path.{AsPath, segments_of, prepend_loop, path_contains}
use cbgp.Attr.Comm.{comm_no_export, comm_no_advertise, comms_add, comms_contains}
use cbgp.Attr.Comm.Laws.{values, comms_contains_iff}
use cbgp.Route.{Peer, Route, Ecomm}
use cbgp.Decision.{Router}
use cbgp.Advertise.{
  external, to_external, prepended, path_prepend, comm_append, values_of, ecomm_step, red_action,
  ecomm_loop, ecomm_process, advertise_to_peer, ecomm_red, ecomm_red_match, rewrite, next_hop_for,
  clear_med, route_ecomm_strip_non_transitive, route_from,
}
use cbgp.Advertise.Stages.{advertise-Announced}
use cbgp.Advertise.Matrix.{route_to-external, announced_external, redistribute-external}
use cbgp.Advertise.Loops.{replicate_add, In-replicate}

-- s has the communities of r with NO_EXPORT behind them, some number of times.
abbrev pub Labelled : Route → Route → Type 0
Labelled r s = (k : ℕ) × (values s.attr.comms ≡ values r.attr.comms ++ replicate k comm_no_export)

same-Labelled : (r s : Route) → values s.attr.comms ≡ values r.attr.comms → Labelled r s
same-Labelled r s e = (0, e ∙ sym (append-nil (values r.attr.comms)))

ok-Labelled : (r s t : Route) → s.attr.comms ≡ r.attr.comms → ok s ≡ ok t → Labelled r t
ok-Labelled r s t e q =
    same-Labelled r t
      (ap (λ (u : Route). values u.attr.comms) (sym (ok_injective s t q)) ∙ ap values e)

Labelled-trans : (r s t : Route) → Labelled r s → Labelled s t → Labelled r t
Labelled-trans r s t (k, e) (l, f) = (
  k + l,
  f
      ∙ ap (λ xs. xs ++ replicate l comm_no_export) e
      ∙ append_assoc (values r.attr.comms) (replicate k comm_no_export) (replicate l comm_no_export)
      ∙ ap (λ xs. values r.attr.comms ++ xs) (replicate_add k l comm_no_export),
)

comm_append-Labelled : (r s : Route) → comm_append r comm_no_export ≡ ok s → Labelled r s
unfolding comms_add
comm_append-Labelled r s e = go (ltb (length (values_of r.attr.comms)) 255) e
  where
    agree : (c : Option (List ℕ)) → values_of c ≡ values c
    agree none = refl
    agree (some c) = refl

    go :
        (b : Bool)
        → (elim (if b then some (values_of r.attr.comms ++ comm_no_export ∷ []) else none) [
          | none ↦ aborted
          | some c ↦ ok (record r { attr = record (r.attr) { comms = some c } })
        ])
          ≡ ok s
        → Labelled r s
    go true e = (
      1,
      ap (λ (u : Route). values u.attr.comms) (sym (ok_injective _ s e))
          ∙ ap (λ xs. xs ++ comm_no_export ∷ []) (agree r.attr.comms),
    )
    go false e = absurd (cc)

to_external-Labelled : (dst : Peer) (r s : Route) → to_external dst r ≡ ok s → Labelled r s
unfolding to_external
to_external-Labelled dst r s e =
    let (a, b) = if_error-ok (comms_contains r.attr.comms comm_no_export) _ s e in
    go (path_contains r.attr.path_ref dst.asn == 0) b
  where
    go :
        (t : Bool)
        → (if t
            then ok (record r { attr = record (r.attr) { originator = none; cluster_list = none } })
            else error)
          ≡ ok s
        → Labelled r s
    go true e = ok-Labelled r _ s refl e
    go false e = absurd (cc)

-- A policy that leaves the communities alone.
abbrev pub KeepsComms : (Route → Option (Option Route)) → Type 0
KeepsComms policy = (r s : Route) → policy r ≡ some (some s) → s.attr.comms ≡ r.attr.comms

module _ (intern : AsPath → AsPath) where
  path_prepend-Labelled :
      (r s : Route) (asn amount : ℕ) → path_prepend intern r asn amount ≡ ok s → Labelled r s
  unfolding path_prepend
  path_prepend-Labelled r s asn amount e =
      go (prepend_loop amount (segments_of r.attr.path_ref) asn) e
    where
      go : (o : Outcome AsPath) → prepended intern r o ≡ ok s → Labelled r s
      go (ok p) e = ok-Labelled r _ s refl e
      go error e = ok-Labelled r r s refl e
      go aborted e = absurd (cc)

  red_action-Labelled :
      (action amount : ℕ) (router : Router) (r s : Route)
      → red_action intern action amount router r ≡ ok s
      → Labelled r s
  red_action-Labelled zero amount router r s e = path_prepend-Labelled r s router.asn amount e
  red_action-Labelled (suc zero) amount router r s e = comm_append-Labelled r s e
  red_action-Labelled (suc (suc zero)) amount router r s e = absurd (cc)
  red_action-Labelled (suc (suc (suc n))) amount router r s e = absurd (cc)

  ecomm_step-Labelled :
      (router : Router) (peer : Peer) (c : Ecomm) (r s : Route)
      → ecomm_step intern router peer c r ≡ ok s
      → Labelled r s
  ecomm_step-Labelled router peer c r s e =
      go ((c.type_high == ecomm_red) && ecomm_red_match c peer) e
    where
      go :
          (t : Bool)
          → (if t then red_action intern ((c.type_low / 8) % 8) (c.type_low % 8) router r else ok r)
            ≡ ok s
          → Labelled r s
      go true e = red_action-Labelled ((c.type_low / 8) % 8) (c.type_low % 8) router r s e
      go false e = ok-Labelled r r s refl e

  ecomm_loop-Labelled :
      (router : Router) (peer : Peer) (cs : List Ecomm) (r s : Route)
      → ecomm_loop intern router peer cs r ≡ ok s
      → Labelled r s
  unfolding ecomm_loop
  ecomm_loop-Labelled router peer [] r s e = ok-Labelled r r s refl e
  ecomm_loop-Labelled router peer (c ∷ cs) r s e =
      let (t, a, b) = and_then-ok (ecomm_step intern router peer c r) _ s e in
      Labelled-trans r t s (ecomm_step-Labelled router peer c r t a)
        (ecomm_loop-Labelled router peer cs t s b)

  ecomm_process-Labelled :
      (router : Router) (peer : Peer) (r s : Route)
      → ecomm_process intern router peer r ≡ ok s
      → Labelled r s
  unfolding ecomm_process
  ecomm_process-Labelled router peer r s e = go r.attr.ecomms e
    where
      go :
          (o : Option (List Ecomm))
          → (elim o [ none ↦ ok r | some cs ↦ ecomm_loop intern router peer cs r ]) ≡ ok s
          → Labelled r s
      go none e = ok-Labelled r r s refl e
      go (some cs) e = ecomm_loop-Labelled router peer cs r s e

  module _ (policy : Route → Option (Option Route)) (router : Router) (dst : Peer) where
    announced-Labelled :
        (r out : Route)
        → KeepsComms policy
        → router.asn ≢ dst.asn
        → advertise_to_peer intern policy router dst r ≡ ok out
        → Labelled r out
    unfolding rewrite
    announced-Labelled r out keeps h e =
        let a = advertise-Announced intern policy router dst r out e in
        let b : to_external dst r ≡ ok a.r1 =
          sym (redistribute-external router dst r h) ∙ a.redistributed in
        let c : path_prepend intern (next_hop_for router dst a.r3) router.asn 1 ≡ ok out =
          subst (λ l. rewrite intern (route_from router r.peer) l router dst a.r3 ≡ ok out)
            (route_to-external router dst h) a.rewritten in
        let d =
          subst
            (λ l. policy (clear_med l (route_ecomm_strip_non_transitive a.r2)) ≡ some (some a.r3))
            (route_to-external router dst h) a.accepted in
        Labelled-trans r a.r1 out (to_external-Labelled dst r a.r1 b) (
          Labelled-trans a.r1 a.r2 out (ecomm_process-Labelled router dst a.r1 a.r2 a.processed) (
            Labelled-trans a.r2 a.r3 out
              (same-Labelled a.r2 a.r3 (
                ap values
                  (keeps (clear_med external (route_ecomm_strip_non_transitive a.r2)) a.r3 d)))
              (path_prepend-Labelled (next_hop_for router dst a.r3) out router.asn 1 c)))

    -- Where the output filter leaves the communities alone, a route announced to an eBGP peer has the
    -- communities it came with, none of which is NO_EXPORT, and behind them only NO_EXPORT, some
    -- number of times; NO_ADVERTISE is not among the communities of the announced route.
    pub announced_communities :
        (r out : Route)
        → KeepsComms policy
        → router.asn ≢ dst.asn
        → advertise_to_peer intern policy router dst r ≡ ok out
        → ((k : ℕ) × (values out.attr.comms ≡ values r.attr.comms ++ replicate k comm_no_export))
          × (comms_contains r.attr.comms comm_no_export ≡ false)
          × (comms_contains out.attr.comms comm_no_advertise ≡ false)
    announced_communities r out keeps h e =
        let (k, p) = announced-Labelled r out keeps h e in
        let (_, advertised, exported, _) = announced_external intern policy router dst r out h e in
        (
          (k, p),
          exported,
          absent k p advertised (Bool-cases (comms_contains out.attr.comms comm_no_advertise)),
        )
      where
        absent :
            (k : ℕ)
            → values out.attr.comms ≡ values r.attr.comms ++ replicate k comm_no_export
            → comms_contains r.attr.comms comm_no_advertise ≡ false
            → (comms_contains out.attr.comms comm_no_advertise ≡ true)
              ⊎ (comms_contains out.attr.comms comm_no_advertise ≡ false)
            → comms_contains out.attr.comms comm_no_advertise ≡ false
        absent k p f (inr g) = g
        absent k p f (inl g) =
            elim (In-append comm_no_advertise (values r.attr.comms) (replicate k comm_no_export) (
              subst (In comm_no_advertise) p
                ((comms_contains_iff out.attr.comms comm_no_advertise).0 g))) [
                  | inl i ↦
                      let t = (comms_contains_iff r.attr.comms comm_no_advertise).1 i in absurd (cc)
                  | inr i ↦ absurd (differ (In-replicate comm_no_advertise comm_no_export k i))
                ]
          where
            differ : comm_no_advertise ≢ comm_no_export
            differ q = omega (arith, q)
