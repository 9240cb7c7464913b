-- ===== src/Attr/Segment/Private.antt =====
-- Removal of private AS numbers (path_segment_remove_private in src/bgp/attr/path_segment.c).
use mathlib.Core.List.{append_assoc}
use cbgp.Base.{
  ℕ, zero, suc, ◌<◌, ◌≡◌, refl, ap, ◌∙◌, Bool, true, false, ◌||◌, some, List, [], ◌∷◌, ◌++◌, arith,
  length, length-append, get_elem?, leb, if◌then◌else◌, All, Bool-cases, inl, inr,
}
use cbgp.Attr.Segment.{Segment, private_loop, remove_at, resized, path_segment_remove_private}

abbrev pub is_private : ℕ → Bool
is_private a = leb 64512 a

-- The reference: the public AS numbers, in order.
abbrev pub public : List ℕ → List ℕ
public [] = []
public (a ∷ xs) = if is_private a then public xs else a ∷ public xs

abbrev pub any_private : List ℕ → Bool
any_private [] = false
any_private (a ∷ xs) = is_private a || any_private xs

get_elem?-middle :
    (pre : List ℕ) (post : List ℕ) → get_elem? (pre ++ post) (length pre) ≡ get_elem? post 0
get_elem?-middle [] post = refl
get_elem?-middle (x ∷ pre) post = get_elem?-middle pre post

remove_at-middle :
    (pre : List ℕ) (a : ℕ) (post : List ℕ) → remove_at (length pre) (pre ++ a ∷ post) ≡ pre ++ post
remove_at-middle [] a post = refl
remove_at-middle (x ∷ pre) a post = ap (◌∷◌ x) (remove_at-middle pre a post)

module _ (fuel index a : ℕ) (xs : List ℕ) (r : Bool) (here : get_elem? xs index ≡ some a) where
  step_private :
      is_private a ≡ true
      → private_loop (suc fuel) index xs r ≡ private_loop fuel index (remove_at index xs) true
  unfolding private_loop
  step_private e = rw (here, private_loop) (rw (e, private_loop))

  step_public :
      is_private a ≡ false → private_loop (suc fuel) index xs r ≡ private_loop fuel (suc index) xs r
  unfolding private_loop
  step_public e = rw (here, private_loop) (rw (e, private_loop))

-- The loop keeps what it has passed and removes the private numbers of the rest.
private_loop_lem :
    (fuel : ℕ) (pre post : List ℕ) (r : Bool)
    → length post < fuel
    → private_loop fuel (length pre) (pre ++ post) r
      ≡ some (pre ++ public post, r || any_private post)
private_loop_lem zero pre post r h = elim h [ ]
private_loop_lem (suc fuel) pre [] r h =
    unfold private_loop in ground (arith, get_elem?-middle pre [])
private_loop_lem (suc fuel) pre (a ∷ post) r h = elim (Bool-cases (is_private a)) [
  | inl e ↦
      step_private fuel (length pre) a (pre ++ a ∷ post) r (get_elem?-middle pre (a ∷ post)) e
      ∙ rw (remove_at-middle pre a post, e)
          (private_loop_lem fuel pre post true (omega arith) ∙ ground arith)
  | inr e ↦
      step_public fuel (length pre) a (pre ++ a ∷ post) r (get_elem?-middle pre (a ∷ post)) e
      ∙ rw (← append_assoc pre (a ∷ []) post, ← shifted, e)
          (private_loop_lem fuel (pre ++ a ∷ []) post r (omega arith)
            ∙ rw (append_assoc pre (a ∷ []) (public post)))
]
  where
    shifted : length (pre ++ a ∷ []) ≡ suc (length pre)
    shifted = omega (arith, length-append pre (a ∷ []))

pub public_of_none : (xs : List ℕ) → any_private xs ≡ false → public xs ≡ xs
public_of_none [] h = refl
public_of_none (a ∷ xs) h = ground (arith, public_of_none xs)

-- A segment without private numbers is left alone; otherwise the public numbers stay in order, and
-- a segment that has none is freed.
pub path_segment_remove_private_lem :
    (s : Segment)
    → path_segment_remove_private s
      ≡ some (if any_private s.asns then resized s (public s.asns) true else some s)
unfolding path_segment_remove_private
path_segment_remove_private_lem s =
    ground (arith, private_loop_lem (suc (length s.asns)) [] s.asns false, public_of_none s.asns)

pub public-All : (xs : List ℕ) → All (λ a. a < 64512) (public xs)
public-All [] = tt
public-All (a ∷ xs) = ground (arith, public-All xs)
