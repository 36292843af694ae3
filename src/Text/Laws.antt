-- ===== src/Text/Laws.antt =====
-- Laws of the text operations.
use iron_babel.Base.{ℕ, ◌≡◌, refl, true, ◌↔◌, ◌+◌, ◌*◌, ◌-◌, ◌≤◌, [], ◌∷◌, ◌++◌, some, arith}
use iron_babel.Text.{Str, str_eq, starts_with, parse_unsigned, digits_from}

pub str_eq_iff : (s t : Str) → (str_eq s t ≡ true) ↔ (s ≡ t)
unfolding str_eq
str_eq_iff [] [] = ground arith
str_eq_iff [] (b ∷ t) = ground arith
str_eq_iff (a ∷ s) [] = ground arith
str_eq_iff (a ∷ s) (b ∷ t) = ground (arith, str_eq_iff s t)

pub starts_with_iff : (p s : Str) → (starts_with p s ≡ true) ↔ ((r : Str) × (s ≡ p ++ r))
unfolding starts_with
starts_with_iff [] s = (λ _. (s, refl), λ _. refl)
starts_with_iff (a ∷ p) [] = (λ h. cc, λ h. cc (h.1))
starts_with_iff (a ∷ p) (c ∷ s) = (
  λ h. let (r, e) = (starts_with_iff p s).0 (ground arith) in (r, ground arith),
  λ h. let (r, e) = h in ground (arith, (starts_with_iff p s).1 (r, ground arith)),
)

digits_from-le : (max : ℕ) (s : Str) (a n : ℕ) → a ≤ max → digits_from max a s ≡ some n → n ≤ max
unfolding digits_from
digits_from-le max [] a n h e = ground arith
digits_from-le max (c ∷ s) a n h e = ground (arith, digits_from-le max s (a * 10 + (c - 48)) n)

pub parse_unsigned-le : (max : ℕ) (s : Str) (n : ℕ) → parse_unsigned max s ≡ some n → n ≤ max
unfolding parse_unsigned
parse_unsigned-le max [] n h = cc
parse_unsigned-le max (c ∷ []) n h = ground (arith, digits_from-le max (c ∷ []) 0 n)
parse_unsigned-le max (c ∷ d ∷ s) n h =
    ground (arith, digits_from-le max (d ∷ s) 0 n, digits_from-le max (c ∷ d ∷ s) 0 n)
