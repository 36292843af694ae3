-- ===== src/Gateway/Forwarding.antt =====
-- The client's address in what is forwarded.
use iron_babel.Base.{
  ◌≡◌, refl, ap, ◌∙◌, Bool, true, not, Bool-cases, inl, inr, List, [], ◌∷◌, ◌++◌, retain,
  append_nil, if◌then◌else◌,
}
use iron_babel.Text.{
  Str, text, eq_ignore_ascii_case, is_empty, to_ascii_lowercase, str_eq, lower_byte,
}
use iron_babel.HttpGuard.{Header}
use iron_babel.Gateway.{is_forwarded_for, set_forwarded_for}

module _ {A : Type 0} (p : A → Bool) where
  retain-append : (xs ys : List A) → retain p (xs ++ ys) ≡ retain p xs ++ retain p ys
  unfolding retain
  retain-append [] ys = refl
  retain-append (x ∷ xs) ys = elim (Bool-cases (p x)) [
    | inl keep ↦ rw keep (ap (λ l. x ∷ l) (retain-append xs ys))
    | inr leave ↦ rw leave (retain-append xs ys)
  ]

  retain-not : (xs : List A) → retain p (retain (λ x. not (p x)) xs) ≡ []
  unfolding retain
  retain-not [] = refl
  retain-not (x ∷ xs) = elim (Bool-cases (p x)) [
    | inl keep ↦ rw keep (retain-not xs)
    | inr leave ↦ rw leave (rw leave (retain-not xs))
  ]

  retain-twice : (xs : List A) → retain p (retain p xs) ≡ retain p xs
  unfolding retain
  retain-twice [] = refl
  retain-twice (x ∷ xs) = elim (Bool-cases (p x)) [
    | inl keep ↦ rw keep (rw keep (ap (λ l. x ∷ l) (retain-twice xs)))
    | inr leave ↦ rw leave (retain-twice xs)
  ]

own_entry : (addr : Str) → is_forwarded_for (text "x-forwarded-for", addr) ≡ true
unfolding is_forwarded_for eq_ignore_ascii_case to_ascii_lowercase text str_eq lower_byte
own_entry addr = refl

added_own :
    (headers : List Header) (addr : Str)
    → retain is_forwarded_for
        (retain (λ h. not (is_forwarded_for h)) headers ++ (text "x-forwarded-for", addr) ∷ [])
      ≡ (text "x-forwarded-for", addr) ∷ []
unfolding retain
added_own headers addr =
    retain-append is_forwarded_for (retain (λ h. not (is_forwarded_for h)) headers) _
    ∙ rw (retain-not is_forwarded_for headers, own_entry addr) refl

others_kept :
    (headers : List Header) (addr : Str)
    → retain
        (λ h. not (is_forwarded_for h))
        (retain (λ h. not (is_forwarded_for h)) headers ++ (text "x-forwarded-for", addr) ∷ [])
      ≡ retain (λ h. not (is_forwarded_for h)) headers
unfolding retain
others_kept headers addr =
    retain-append (λ h. not (is_forwarded_for h)) (retain (λ h. not (is_forwarded_for h)) headers) _
    ∙ rw (retain-twice (λ h. not (is_forwarded_for h)) headers, own_entry addr) (append_nil _)

-- Whatever the client sent, the headers that are forwarded name exactly the socket's address as
-- X-Forwarded-For, or no address if it is unknown, and every other header is kept in its order.
pub set_forwarded_for-exact :
    (headers : List Header) (addr : Str)
    → (retain is_forwarded_for (set_forwarded_for headers addr)
        ≡ (if is_empty addr then [] else (text "x-forwarded-for", addr) ∷ []))
      × (retain (λ h. not (is_forwarded_for h)) (set_forwarded_for headers addr)
          ≡ retain (λ h. not (is_forwarded_for h)) headers)
unfolding set_forwarded_for retain
set_forwarded_for-exact headers addr = elim (Bool-cases (is_empty addr)) [
  | inl unknown ↦
      rw unknown
        (retain-not is_forwarded_for headers, retain-twice (λ h. not (is_forwarded_for h)) headers)
  | inr known ↦ rw known (added_own headers addr, others_kept headers addr)
]
