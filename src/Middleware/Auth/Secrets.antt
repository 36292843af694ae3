-- ===== src/Middleware/Auth/Secrets.antt =====
-- `constant_time_eq` of src/core/middleware/auth.rs on byte strings.
use Prim.Native.Nat.{bit_or, bit_xor}
use iron_babel.Base.{
  ℕ, zero, suc, ◌<◌, ◌≡◌, refl, ◌↔◌, Bool, true, false, not, ◌&&◌, [], ◌∷◌, arith, ltb, ◌==◌,
  length, All, ==_iff, ap, inl, inr, Bool-cases,
}
use iron_babel.Text.{Str}
use iron_babel.Grpc.Bytes.{IsByte}
use iron_babel.Middleware.Auth.{fold_difference, constant_time_eq}

-- A test that holds of all numbers under a bound.
holds_under : (ℕ → Bool) → ℕ → Bool
holds_under test zero = true
holds_under test (suc bound) = holds_under test bound && test bound

holds_under_lem :
    (test : ℕ → Bool) (bound k : ℕ) → holds_under test bound ≡ true → k < bound → test k ≡ true
unfolding holds_under
holds_under_lem test (suc bound) k h lt = ground (arith, holds_under_lem test bound k)
holds_under_lem test zero k h lt = absurd (omega (arith, lt))

-- Two Boolean values are the same.
same : Bool → Bool → Bool
same true b = b
same false b = not b

-- The facts about bytes, by evaluation at every pair of bytes.
byte_test : ℕ → ℕ → Bool
byte_test x y =
    same (bit_xor x y == 0) (x == y)
    && (ltb (bit_xor x y) 256
        && (same (bit_or x y == 0) (x == 0 && y == 0) && ltb (bit_or x y) 256))

every_byte_pair : holds_under (λ x. holds_under (byte_test x) 256) 256 ≡ true
unfolding holds_under byte_test same
every_byte_pair = refl

byte_facts : (x y : ℕ) → IsByte x → IsByte y → byte_test x y ≡ true
byte_facts x y hx hy =
    let row = holds_under_lem (λ z. holds_under (byte_test z) 256) 256 x every_byte_pair hx in
    holds_under_lem (byte_test x) 256 y row hy

xor_facts : (x y : ℕ) → IsByte x → IsByte y → ((bit_xor x y ≡ 0) ↔ (x ≡ y)) × IsByte (bit_xor x y)
unfolding byte_test same
xor_facts x y hx hy = ground (arith, byte_facts x y hx hy)

or_facts :
    (x y : ℕ) → IsByte x → IsByte y → ((bit_or x y ≡ 0) ↔ ((x ≡ 0) × (y ≡ 0))) × IsByte (bit_or x y)
unfolding byte_test same
or_facts x y hx hy = ground (arith, byte_facts x y hx hy)

-- The accumulated difference is zero exactly if it was and the strings, as long as each other, agree.
fold_difference_iff :
    (a b : Str) (acc : ℕ)
    → IsByte acc
    → All IsByte a
    → All IsByte b
    → length a ≡ length b
    → (fold_difference acc a b ≡ 0) ↔ ((acc ≡ 0) × (a ≡ b))
unfolding fold_difference
fold_difference_iff [] [] acc hacc ha hb e = ground arith
fold_difference_iff [] (y ∷ b) acc hacc ha hb e = absurd (omega arith)
fold_difference_iff (x ∷ a) [] acc hacc ha hb e = absurd (omega arith)
fold_difference_iff (x ∷ a) (y ∷ b) acc hacc ha hb e =
    let differ = xor_facts x y ha.0 hb.0 in
    let joined = or_facts acc (bit_xor x y) hacc differ.1 in
    let rest =
      fold_difference_iff a b (bit_or acc (bit_xor x y)) joined.1 ha.1 hb.1 (omega arith) in
    ground arith

-- On byte strings the comparison is equality, also of strings that share a prefix.
pub constant_time_eq_iff :
    (a b : Str) → All IsByte a → All IsByte b → (constant_time_eq a b ≡ true) ↔ (a ≡ b)
unfolding constant_time_eq
constant_time_eq_iff a b ha hb = elim (Bool-cases (length a == length b)) [
  | inl same_length ↦
      let folded =
        fold_difference_iff a b 0 (omega arith) ha hb
          ((==_iff (length a) (length b)).0 same_length) in
      ground arith
  | inr other ↦ ground (arith, ap length {x = a} {y = b})
]
