-- ===== src/AsLevel/Consistent.antt =====
-- What aslevel_topo_check_consistency of src/bgp/aslevel/as-level.c tests.
use cbgp.Base.{
  ℕ, ◌≡◌, ◌↔◌, refl, sym, ap, ◌∙◌, arith, Bool, true, false, Option, none, some, List, [], ◌∷◌,
  if◌then◌else◌, ◌>>=◌, >>=-some, some_injective, All, All-In, In, inl, inr,
}
use cbgp.AsLevel.{
  PeerType, customer, provider, peer, sibling, unknown, success, inconsistent, Link, Domain, Topo,
  asn_of, neighbor_of, find_domain, find_link, peer_type_eq, reverse_relation, link_consistent,
  links_consistent, domains_consistent, topo_check_consistency,
}
use cbgp.AsLevel.Arrays.{find_at-some, find_at-In, Distinct}

-- How domain `b` is related to domain `a`, by the links of `a`.
abbrev pub link_type : Option Link → Option PeerType
link_type none = none
link_type (some l) = some l.peer_type

abbrev pub links_of : Option Domain → List Link
links_of none = []
links_of (some d) = d.neighbors

abbrev pub relation : List Domain → ℕ → ℕ → Option PeerType
relation ds a b = link_type (find_link (links_of (find_domain ds a)) b)

-- Every relation has its reverse.
abbrev pub Mutual : List Domain → Type 0
Mutual ds =
    (a b : ℕ) (t : PeerType)
    → relation ds a b ≡ some t
    → relation ds b a ≡ some (reverse_relation t)

-- The arrays of the topology have every number once.
abbrev pub DistinctLinks : List Domain → Type 0
DistinctLinks ds = All (λ (d : Domain). Distinct neighbor_of d.neighbors) ds

abbrev pub IsSorted : List Domain → Type 0
IsSorted ds = Distinct asn_of ds × DistinctLinks ds

reverse_reverse : (t : PeerType) → reverse_relation (reverse_relation t) ≡ t
reverse_reverse customer = refl
reverse_reverse provider = refl
reverse_reverse peer = refl
reverse_reverse sibling = refl
reverse_reverse unknown = refl

peer_type_eq-eq : (s t : PeerType) → peer_type_eq s t ≡ true → s ≡ t
peer_type_eq-eq s t h = ground (arith, h)

peer_type_eq_refl : (t : PeerType) → peer_type_eq t t ≡ true
peer_type_eq_refl customer = refl
peer_type_eq_refl provider = refl
peer_type_eq_refl peer = refl
peer_type_eq_refl sibling = refl
peer_type_eq_refl unknown = refl

abbrev Returned : List Domain → ℕ → Link → Type 0
Returned ds a l = relation ds l.neighbor a ≡ some (reverse_relation l.peer_type)

link_consistent-Returned :
    (ds : List Domain) (a : ℕ) (l : Link) → link_consistent ds a l ≡ some true → Returned ds a l
link_consistent-Returned ds a l h = go (find_domain ds l.neighbor) h
  where
    back :
        (t : PeerType) (o : Option Link)
        → (elim o [ none ↦ false | some back ↦ peer_type_eq t (reverse_relation back.peer_type) ])
          ≡ true
        → link_type o ≡ some (reverse_relation t)
    back t none e = absurd (cc)
    back t (some k) e = ap some (
        sym (
          ap reverse_relation (peer_type_eq-eq t (reverse_relation k.peer_type) e)
          ∙ reverse_reverse k.peer_type))

    go :
        (o : Option Domain)
        → (o >>= λ d. some (elim (find_link d.neighbors a) [
          | none ↦ false
          | some back ↦ peer_type_eq l.peer_type (reverse_relation back.peer_type)
        ]))
          ≡ some true
        → link_type (find_link (links_of o) a) ≡ some (reverse_relation l.peer_type)
    go none e = absurd (cc)
    go (some d) e = back l.peer_type (find_link d.neighbors a) (some_injective _ true e)

Returned-link_consistent :
    (ds : List Domain) (a : ℕ) (l : Link) → Returned ds a l → link_consistent ds a l ≡ some true
Returned-link_consistent ds a l h = go (find_domain ds l.neighbor) h
  where
    back :
        (t : PeerType) (o : Option Link)
        → link_type o ≡ some (reverse_relation t)
        → (elim o [ none ↦ false | some back ↦ peer_type_eq t (reverse_relation back.peer_type) ])
          ≡ true
    back t none e = absurd (cc)
    back t (some k) e =
        ap (λ (u : PeerType). peer_type_eq t (reverse_relation u)) (some_injective k.peer_type _ e)
        ∙ ap (peer_type_eq t) (reverse_reverse t)
        ∙ peer_type_eq_refl t

    go :
        (o : Option Domain)
        → link_type (find_link (links_of o) a) ≡ some (reverse_relation l.peer_type)
        → (o >>= λ d. some (elim (find_link d.neighbors a) [
          | none ↦ false
          | some back ↦ peer_type_eq l.peer_type (reverse_relation back.peer_type)
        ]))
          ≡ some true
    go none e = absurd (cc)
    go (some d) e = ap some (back l.peer_type (find_link d.neighbors a) e)

links_consistent_iff :
    (ds : List Domain) (a : ℕ) (ls : List Link)
    → (links_consistent ds a ls ≡ some true) ↔ All (Returned ds a) ls
links_consistent_iff ds a [] = (λ _. tt, λ _. refl)
links_consistent_iff ds a (l ∷ ls) = (
  λ h.
      let (t, p, q) = >>=-some (link_consistent ds a l) _ true h in
      let (e, f) = first t q in
      (link_consistent-Returned ds a l (rw e at p), (links_consistent_iff ds a ls).0 f),
  λ h. rw (Returned-link_consistent ds a l h.0) ((links_consistent_iff ds a ls).1 h.1),
)
  where
    first :
        (t : Bool)
        → (elim t [ false ↦ some false | true ↦ links_consistent ds a ls ]) ≡ some true
        → (t ≡ true) × (links_consistent ds a ls ≡ some true)
    first true e = (refl, e)
    first false e = absurd (cc)

abbrev AllReturned : List Domain → Domain → Type 0
AllReturned ds d = All (Returned ds d.asn) d.neighbors

domains_consistent_iff :
    (ds rest : List Domain) → (domains_consistent ds rest ≡ some true) ↔ All (AllReturned ds) rest
domains_consistent_iff ds [] = (λ _. tt, λ _. refl)
domains_consistent_iff ds (d ∷ rest) = (
  λ h.
      let (t, p, q) = >>=-some (links_consistent ds d.asn d.neighbors) _ true h in
      let (e, f) = first t q in
      (
        (links_consistent_iff ds d.asn d.neighbors).0 (rw e at p),
        (domains_consistent_iff ds rest).0 f,
      ),
  λ h.
      rw ((links_consistent_iff ds d.asn d.neighbors).1 h.0)
        ((domains_consistent_iff ds rest).1 h.1),
)
  where
    first :
        (t : Bool)
        → (elim t [ false ↦ some false | true ↦ domains_consistent ds rest ]) ≡ some true
        → (t ≡ true) × (domains_consistent ds rest ≡ some true)
    first true e = (refl, e)
    first false e = absurd (cc)

pub All_intro : {A : Type 0} (P : A → Type 0) (xs : List A) → ((x : A) → In x xs → P x) → All P xs
All_intro P [] h = tt
All_intro P (x ∷ xs) h = (h x (inl refl), All_intro P xs (λ y i. h y (inr i)))

pub relation-some :
    (ds : List Domain) (a b : ℕ) (t : PeerType)
    → relation ds a b ≡ some t
    → (d : Domain) × (l : Link) × In d ds
      × In l d.neighbors
      × (d.asn ≡ a)
      × (l.neighbor ≡ b)
      × (l.peer_type ≡ t)
relation-some ds a b t e = go (find_domain ds a) refl e
  where
    linked :
        (d : Domain) (o : Option Link)
        → find_domain ds a ≡ some d
        → find_link d.neighbors b ≡ o
        → link_type o ≡ some t
        → (d : Domain) × (l : Link) × In d ds
          × In l d.neighbors
          × (d.asn ≡ a)
          × (l.neighbor ≡ b)
          × (l.peer_type ≡ t)
    linked d none p q h = absurd (cc)
    linked d (some l) p q h =
        let (i, k) = find_at-some asn_of ds a d p in
        let (j, m) = find_at-some neighbor_of d.neighbors b l q in
        (d, l, i, j, k, m, some_injective l.peer_type t h)

    go :
        (o : Option Domain)
        → find_domain ds a ≡ o
        → link_type (find_link (links_of o) b) ≡ some t
        → (d : Domain) × (l : Link) × In d ds
          × In l d.neighbors
          × (d.asn ≡ a)
          × (l.neighbor ≡ b)
          × (l.peer_type ≡ t)
    go none p h = absurd (cc)
    go (some d) p h = linked d (find_link d.neighbors b) p refl h

pub In-relation :
    (ds : List Domain) (d : Domain) (l : Link)
    → IsSorted ds
    → In d ds
    → In l d.neighbors
    → relation ds d.asn l.neighbor ≡ some l.peer_type
In-relation ds d l s i j =
    ap (λ (o : Option Domain). link_type (find_link (links_of o) l.neighbor))
      (find_at-In asn_of ds d s.0 i)
    ∙ ap link_type (
        find_at-In neighbor_of d.neighbors l
          (All-In (λ (d : Domain). Distinct neighbor_of d.neighbors) d ds s.1 i) j)

-- The topology passes the test exactly if every relation between domains has its reverse.
pub topo_check_consistency_iff :
    (t : Topo) → IsSorted t.domains → (topo_check_consistency t ≡ some success) ↔ Mutual t.domains
unfolding topo_check_consistency
topo_check_consistency_iff t s = (
  λ h a b u e.
      let (c, p, q) = >>=-some (domains_consistent t.domains t.domains) _ success h in
      let every = (domains_consistent_iff t.domains t.domains).0 (rw (passed c q) at p) in
      let (d, l, i, j, x, y, z) = relation-some t.domains a b u e in
      let back =
        All-In (Returned t.domains d.asn) l d.neighbors
          (All-In (AllReturned t.domains) d t.domains every i) j in
      rw (x, y, z) at back,
  λ m.
      rw
        ((domains_consistent_iff t.domains t.domains).1 (
          All_intro (AllReturned t.domains) t.domains (λ d i.
            All_intro (Returned t.domains d.asn) d.neighbors
              (λ l j. m d.asn l.neighbor l.peer_type (In-relation t.domains d l s i j)))))
        refl,
)
  where
    passed : (c : Bool) → some (if c then success else inconsistent) ≡ some success → c ≡ true
    passed true e = refl
    passed false e = absurd (cc)
