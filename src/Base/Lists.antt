-- ===== src/Base/Lists.antt =====
-- Lists measured by native numbers, predicates on lists by recursion, and Boolean list tests.
use Prim.Native.Nat.{ℕ, zero, suc, ◌+◌, ◌-◌, ◌≤◌}
use mathlib.Core.Path.{◌≡◌, refl, sym, ap, subst}
use mathlib.Core.Logic.{◌⊎◌, ◌↔◌, inl, inr}
use mathlib.Core.Bool.{Bool, true, false, ◌&&◌, ◌||◌}
use mathlib.Core.List.{List, [], ◌∷◌, ◌++◌, map}
use native.Mathlib.Omega.{arith}
use iron_babel.Base.Tests.{if◌then◌else◌, Bool-cases}

module _ {ℓ} {A : Type ℓ} where
  abbrev pub length : List A → ℕ
  length [] = 0
  length (x ∷ xs) = suc (length xs)

  abbrev pub take : ℕ → List A → List A
  take zero xs = []
  take (suc n) [] = []
  take (suc n) (x ∷ xs) = x ∷ take n xs

  abbrev pub drop : ℕ → List A → List A
  drop zero xs = xs
  drop (suc n) [] = []
  drop (suc n) (x ∷ xs) = drop n xs

  abbrev pub get_or : List A → ℕ → A → A
  get_or [] i d = d
  get_or (x ∷ xs) zero d = x
  get_or (x ∷ xs) (suc i) d = get_or xs i d

  -- `iter().any(..)`, `iter().all(..)` and `retain(..)` with a Boolean test.
  unfoldable pub any : (A → Bool) → List A → Bool
  any p [] = false
  any p (x ∷ xs) = p x || any p xs

  unfoldable pub all : (A → Bool) → List A → Bool
  all p [] = true
  all p (x ∷ xs) = p x && all p xs

  unfoldable pub retain : (A → Bool) → List A → List A
  retain p [] = []
  retain p (x ∷ xs) = let rest = retain p xs in if p x then x ∷ rest else rest

  pub length-append : (xs ys : List A) → length (xs ++ ys) ≡ length xs + length ys
  length-append [] ys = omega arith
  length-append (x ∷ xs) ys = omega (arith, length-append xs ys)

  pub take_all_append : (xs ys : List A) → take (length xs) (xs ++ ys) ≡ xs
  take_all_append [] ys = refl
  take_all_append (x ∷ xs) ys = ap (λ t. x ∷ t) (take_all_append xs ys)

  pub drop_all_append : (xs ys : List A) → drop (length xs) (xs ++ ys) ≡ ys
  drop_all_append [] ys = refl
  drop_all_append (x ∷ xs) ys = drop_all_append xs ys

  pub append_nil : (xs : List A) → xs ++ [] ≡ xs
  append_nil [] = refl
  append_nil (x ∷ xs) = ap (λ l. x ∷ l) (append_nil xs)

  pub length-drop : (n : ℕ) (xs : List A) → length (drop n xs) ≡ length xs - n
  length-drop zero xs = omega arith
  length-drop (suc n) [] = omega arith
  length-drop (suc n) (x ∷ xs) = omega (arith, length-drop n xs)

  pub take-append-drop : (n : ℕ) (xs : List A) → take n xs ++ drop n xs ≡ xs
  take-append-drop zero xs = refl
  take-append-drop (suc n) [] = refl
  take-append-drop (suc n) (x ∷ xs) = ap (λ t. x ∷ t) (take-append-drop n xs)

  pub length-take_le : (n : ℕ) (xs : List A) → n ≤ length xs → length (take n xs) ≡ n
  length-take_le zero xs h = refl
  length-take_le (suc n) [] h = elim h [ ]
  length-take_le (suc n) (x ∷ xs) h = ap suc (length-take_le n xs (omega arith))

pub length-map : {A B : Type 0} (f : A → B) (xs : List A) → length (map f xs) ≡ length xs
length-map f [] = refl
length-map f (x ∷ xs) = ap suc (length-map f xs)

abbrev pub All {ℓ κ} : {A : Type ℓ} → (A → Type κ) → List A → Type κ
All P [] = Unit
All P (x ∷ xs) = P x × All P xs

-- Membership that computes to a sum, for proofs that are case splits.
abbrev pub In : {A : Type 0} → A → List A → Type 0
In a [] = ⊥
In a (x ∷ xs) = (a ≡ x) ⊎ In a xs

module _ {A : Type 0} (p : A → Bool) where
  pub retain-In_iff : (a : A) (xs : List A) → In a (retain p xs) ↔ (In a xs × (p a ≡ true))
  unfolding retain
  retain-In_iff a [] = ground arith
  retain-In_iff a (x ∷ xs) = ground (arith, retain-In_iff a xs, ap p {x = a} {y = x})

  pub any_iff : (xs : List A) → (any p xs ≡ true) ↔ ((a : A) × In a xs × (p a ≡ true))
  unfolding any
  any_iff [] = (λ h. cc, λ h. absurd h.1)
  any_iff (x ∷ xs) = elim (Bool-cases (p x)) [
    | inl here ↦ (λ _. (x, inl refl, here), λ _. rw here)
    | inr miss ↦ (
      λ h. let (a, i, e) = (any_iff xs).0 (rw miss at h) in (a, inr i, e),
      λ h.
          let (a, i, e) = h in
          rw miss (elim i [ inl same ↦ cc | inr later ↦ (any_iff xs).1 (a, later, e) ]),
    )
  ]

  pub all_iff : (xs : List A) → (all p xs ≡ true) ↔ All (λ a. p a ≡ true) xs
  unfolding all
  all_iff [] = ground arith
  all_iff (x ∷ xs) = ground (arith, all_iff xs)

module _ {A : Type 0} (P : A → Type 0) where
  pub All-In : (xs : List A) → All P xs → (a : A) → In a xs → P a
  All-In [] h a i = absurd i
  All-In (x ∷ xs) h a (inl e) = subst P (sym e) h.0
  All-In (x ∷ xs) h a (inr i) = All-In xs h.1 a i

  pub All_of_In : (xs : List A) → ((a : A) → In a xs → P a) → All P xs
  All_of_In [] h = tt
  All_of_In (x ∷ xs) h = (h x (inl refl), All_of_In xs (λ a i. h a (inr i)))

  pub All_append-right : (xs ys : List A) → All P (xs ++ ys) → All P ys
  All_append-right [] ys h = h
  All_append-right (x ∷ xs) ys h = All_append-right xs ys h.1

  pub All-append : (xs ys : List A) → All P xs → All P ys → All P (xs ++ ys)
  All-append [] ys hx hy = hy
  All-append (x ∷ xs) ys hx hy = (hx.0, All-append xs ys hx.1 hy)

  pub All_map : (Q : A → Type 0) → ((a : A) → P a → Q a) → (xs : List A) → All P xs → All Q xs
  All_map Q f [] h = tt
  All_map Q f (x ∷ xs) h = (f x h.0, All_map Q f xs h.1)

  pub All-drop : (n : ℕ) (xs : List A) → All P xs → All P (drop n xs)
  All-drop zero xs h = h
  All-drop (suc n) [] h = tt
  All-drop (suc n) (x ∷ xs) h = All-drop n xs h.1
