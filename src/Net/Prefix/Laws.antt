-- ===== src/Net/Prefix/Laws.antt =====
-- Prefixes as sets of addresses (src/net/prefix.c).
use Prim.Native.Nat.{Ordering}
use native.Mathlib.Nat.{
  add-suc, mul-one, pow-suc, div-div-eq-div-mul, mul-div_cancel, one-le-pow, mul_assoc,
  mul-mod_left, zero-mod,
}
use cbgp.Base.{
  ℕ, zero, suc, ◌+◌, ◌-◌, ◌*◌, ◌/◌, ◌%◌, ◌^◌, ◌≤◌, ◌≡◌, refl, sym, ap, ◌∙◌, true, false, some,
  arith, le→leb, ◌==◌, Bool-cases, ◌⊎◌, inl, inr,
}
use cbgp.Net.Prefix.{
  Prefix, ip_address_masked, ip_address_cmp, ip_prefix_cmp, ip_address_in_prefix,
  ip_prefix_in_prefix, ip_prefix_mask,
}

two_pow_add : (m n : ℕ) → 2 ^ (m + n) ≡ 2 ^ m * 2 ^ n
two_pow_add m zero = ap (λ k. 2 ^ k) (plus_zero m) ∙ sym (mul-one (2 ^ m))
  where
    plus_zero : (i : ℕ) → i + 0 ≡ i
    plus_zero i = omega arith
two_pow_add m (suc n) =
    ap (λ k. 2 ^ k) (add-suc m n)
    ∙ pow-suc 2 (m + n)
    ∙ ap (λ t. t * 2) (two_pow_add m n)
    ∙ mul_assoc (2 ^ m) (2 ^ n) 2
    ∙ ap (λ t. 2 ^ m * t) (sym (pow-suc 2 n))

-- Shifting further keeps what is equal equal.
shift_further : (a b k j : ℕ) → a / 2 ^ k ≡ b / 2 ^ k → a / 2 ^ (k + j) ≡ b / 2 ^ (k + j)
shift_further a b k j e =
    ap (λ t. a / t) (two_pow_add k j)
    ∙ sym (div-div-eq-div-mul a (2 ^ k) (2 ^ j))
    ∙ ap (λ t. t / 2 ^ j) e
    ∙ div-div-eq-div-mul b (2 ^ k) (2 ^ j)
    ∙ ap (λ t. b / t) (sym (two_pow_add k j))

shifted : (a b i j : ℕ) → i ≤ j → a / 2 ^ i ≡ b / 2 ^ i → a / 2 ^ j ≡ b / 2 ^ j
shifted a b i j h e = let q : j ≡ i + (j - i) = omega arith in rw q (shift_further a b i (j - i) e)

-- What a positive answer of each test says.
Within : ℕ → ℕ → Prefix → Type 0
Within low address q =
    (q.mask ≤ 32)
    × ((q.mask ≡ 0)
        ⊎ ((q.mask ≤ low) × (address / 2 ^ (32 - q.mask) ≡ q.network / 2 ^ (32 - q.mask))))

prefix-Within : (p q : Prefix) → ip_prefix_in_prefix p q ≡ some true → Within p.mask p.network q
unfolding ip_prefix_in_prefix Within
prefix-Within p q h = ground (arith, h)

address-Within : (a : ℕ) (p : Prefix) → ip_address_in_prefix a p ≡ some true → Within 32 a p
unfolding ip_address_in_prefix Within
address-Within a p h = ground (arith, h)

Within-address : (a low : ℕ) (p : Prefix) → Within low a p → ip_address_in_prefix a p ≡ some true
unfolding ip_address_in_prefix Within
Within-address a low p h = ground (arith, h)

-- A prefix that is in another one, as ip_prefix_in_prefix says, has only addresses of that one.
pub in_prefix_lem :
    (p q : Prefix) (a : ℕ)
    → ip_prefix_in_prefix p q ≡ some true
    → ip_address_in_prefix a p ≡ some true
    → ip_address_in_prefix a q ≡ some true
unfolding Within
in_prefix_lem p q a h k = Within-address a 32 q (go (prefix-Within p q h) (address-Within a p k))
  where
    go : Within p.mask p.network q → Within 32 a p → Within 32 a q
    go (f, inl z) w = (f, inl z)
    go (f, inr (le, e)) (g, inl z) = (f, inl (omega arith))
    go (f, inr (le, e)) (g, inr (_, e')) =
        (f, inr (f, shifted a p.network (32 - p.mask) (32 - q.mask) (omega arith) e' ∙ e))

Within-prefix : (p q : Prefix) → Within p.mask p.network q → ip_prefix_in_prefix p q ≡ some true
unfolding ip_prefix_in_prefix Within
Within-prefix p q h = ground (arith, h)

-- "More specific than" is transitive.
pub in_prefix_trans :
    (p q r : Prefix)
    → ip_prefix_in_prefix p q ≡ some true
    → ip_prefix_in_prefix q r ≡ some true
    → ip_prefix_in_prefix p r ≡ some true
unfolding Within
in_prefix_trans p q r h k = Within-prefix p r (go (prefix-Within p q h) (prefix-Within q r k))
  where
    go : Within p.mask p.network q → Within q.mask q.network r → Within p.mask p.network r
    go w (g, inl z) = (g, inl z)
    go (f, inl z) (g, inr (le, e)) = (g, inl (omega arith))
    go (f, inr (le, e)) (g, inr (le', e')) = (
      g,
      inr (
        omega arith,
        shifted p.network q.network (32 - q.mask) (32 - r.mask) (omega arith) e ∙ e',
      ),
    )

cleared : (n k : ℕ) → n / 2 ^ k * 2 ^ k / 2 ^ k ≡ n / 2 ^ k
cleared n k = mul-div_cancel (n / 2 ^ k) (one-le-pow k 2 (omega arith))

-- Masking a prefix of at most 32 bits succeeds; it clears the bits of the network behind the mask,
-- changes neither the mask length nor the addresses that are in the prefix, and a prefix masked once
-- stays as it is when it is masked again.
pub prefix_mask_lem :
    (p : Prefix)
    → p.mask ≤ 32
    → (q : Prefix) × (ip_prefix_mask p ≡ some q)
      × (q.mask ≡ p.mask)
      × (q.network % 2 ^ (32 - p.mask) ≡ 0)
      × ((a : ℕ) → ip_address_in_prefix a q ≡ ip_address_in_prefix a p)
      × (ip_prefix_mask q ≡ some q)
unfolding ip_prefix_mask ip_address_masked ip_address_in_prefix
prefix_mask_lem p h = elim (Bool-cases (p.mask == 0)) [
  | inl z ↦ (
    record p { network = 0 },
    rw (le→leb p.mask 32 h, z),
    refl,
    zero-mod (2 ^ (32 - p.mask)),
    λ a. rw z,
    rw (le→leb p.mask 32 h, z),
  )
  | inr z ↦ (
    record p { network = p.network / 2 ^ (32 - p.mask) * 2 ^ (32 - p.mask) },
    rw (le→leb p.mask 32 h, z),
    refl,
    mul-mod_left (p.network / 2 ^ (32 - p.mask)) (2 ^ (32 - p.mask)),
    λ a. rw (cleared p.network (32 - p.mask)),
    rw (le→leb p.mask 32 h, z, cleared p.network (32 - p.mask)),
  )
]

-- The shape of a comparison of two masked networks that are equal.
cmp_zero :
    (p q : Prefix)
    → ip_prefix_cmp false p q ≡ some Ordering.eq
    → (p.mask ≡ q.mask)
      × ((p.mask ≡ 0)
          ⊎ (p.network / 2 ^ (32 - p.mask) * 2 ^ (32 - p.mask)
              ≡ q.network / 2 ^ (32 - p.mask) * 2 ^ (32 - p.mask)))
unfolding ip_prefix_cmp ip_address_masked ip_address_cmp
cmp_zero p q h = ground (arith, h)

-- Two prefixes for which ip_prefix_cmp answers 0 have the same mask length and the same addresses.
pub prefix_cmp_eq :
    (p q : Prefix) (a : ℕ)
    → ip_prefix_cmp false p q ≡ some Ordering.eq
    → (p.mask ≡ q.mask) × (ip_address_in_prefix a p ≡ ip_address_in_prefix a q)
unfolding ip_address_in_prefix
prefix_cmp_eq p q a h =
    let (m, c) = cmp_zero p q h in
    (
      m,
      elim c [
        | inl z ↦ rw (← m, z)
        | inr e ↦
            let d : p.network / 2 ^ (32 - p.mask) ≡ q.network / 2 ^ (32 - p.mask) =
              sym (cleared p.network (32 - p.mask))
              ∙ ap (λ t. t / 2 ^ (32 - p.mask)) e
              ∙ cleared q.network (32 - p.mask) in
            rw (← m, d)
      ],
    )
