-- ===== src/Text/Decimal.antt =====
-- Decimal numbers: what printing gives to parsing, and that printing loses nothing.
use iron_babel.Base.{
  ℕ, zero, suc, ◌≡◌, sym, ◌+◌, ◌*◌, ◌-◌, ◌/◌, ◌%◌, ◌≤◌, ◌<◌, ltb, [], ◌∷◌, some, arith, Bool-cases,
  All, ltb→lt, inl, inr, ap, ◌∙◌,
}
use iron_babel.Text.{Str, parse_unsigned, digits_from, decimal, decimal_from}

-- The number that decimal digits denote, read on from `a`.
value_from : ℕ → Str → ℕ
value_from a [] = a
value_from a (c ∷ s) = value_from (a * 10 + (c - 48)) s

value_from-decimal_from :
    (fuel n : ℕ) (s : Str) → n < fuel → value_from 0 (decimal_from fuel n s) ≡ value_from n s
unfolding decimal_from value_from
value_from-decimal_from zero n s h = elim h [ ]
value_from-decimal_from (suc fuel) n s h =
    ground (arith, value_from-decimal_from fuel (n / 10) ((48 + n % 10) ∷ s))

-- Different numbers print differently.
pub decimal-injective : (m n : ℕ) → decimal m ≡ decimal n → m ≡ n
unfolding decimal value_from
decimal-injective m n e =
    sym (value_from-decimal_from (suc m) m [] (omega arith))
    ∙ (ap (value_from 0) e ∙ value_from-decimal_from (suc n) n [] (omega arith))

digits_from-decimal_from :
    (max fuel n : ℕ) (s : Str)
    → n < fuel
    → n ≤ max
    → digits_from max 0 (decimal_from fuel n s) ≡ digits_from max n s
unfolding decimal_from digits_from
digits_from-decimal_from max zero n s h b = elim h [ ]
digits_from-decimal_from max (suc fuel) n s h b =
    ground (arith, digits_from-decimal_from max fuel (n / 10) ((48 + n % 10) ∷ s))

decimal_from-head :
    (fuel n : ℕ) (s : Str)
    → n < fuel
    → (c : ℕ) × (t : Str) × (decimal_from fuel n s ≡ c ∷ t) × (48 ≤ c)
unfolding decimal_from
decimal_from-head zero n s h = elim h [ ]
decimal_from-head (suc fuel) n s h = elim (Bool-cases (ltb n 10)) [
  | inl small ↦ (48 + n, s, rw (small, decimal_from), omega arith)
  | inr large ↦
      let (c, t, e, digit) = decimal_from-head fuel (n / 10) ((48 + n % 10) ∷ s) (ground arith) in
      (c, t, rw (large, decimal_from) e, digit)
]

parse_unsigned-digit :
    (max c : ℕ) (t : Str) → 48 ≤ c → parse_unsigned max (c ∷ t) ≡ digits_from max 0 (c ∷ t)
unfolding parse_unsigned
parse_unsigned-digit max c [] h = ground arith
parse_unsigned-digit max c (d ∷ t) h = ground arith

-- A printed number that is not above the bound is read back.
pub parse_unsigned-decimal : (max n : ℕ) → n ≤ max → parse_unsigned max (decimal n) ≡ some n
unfolding decimal digits_from
parse_unsigned-decimal max n h =
    let (c, t, e, digit) = decimal_from-head (suc n) n [] (omega arith) in
    ap (parse_unsigned max) e
    ∙ (parse_unsigned-digit max c t digit
        ∙ (sym (ap (digits_from max 0) e)
            ∙ digits_from-decimal_from max (suc n) n [] (omega arith) h))

abbrev pub IsDigit : ℕ → Type 0
IsDigit c = (48 ≤ c) × (c ≤ 57)

decimal_from-IsDigit : (fuel n : ℕ) (s : Str) → All IsDigit s → All IsDigit (decimal_from fuel n s)
unfolding decimal_from
decimal_from-IsDigit zero n s h = h
decimal_from-IsDigit (suc fuel) n s h = elim (Bool-cases (ltb n 10)) [
  | inl small ↦
      let least = ltb→lt n 10 small in rw (small, decimal_from) ((omega arith, omega arith), h)
  | inr large ↦
      rw (large, decimal_from)
        (decimal_from-IsDigit fuel (n / 10) ((48 + n % 10) ∷ s) ((omega arith, omega arith), h))
]

pub decimal-IsDigit : (n : ℕ) → All IsDigit (decimal n)
unfolding decimal
decimal-IsDigit n = decimal_from-IsDigit (suc n) n [] tt
