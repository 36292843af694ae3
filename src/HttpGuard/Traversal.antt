-- ===== src/HttpGuard/Traversal.antt =====
-- The loop and the test of `path_contains_traversal` in src/protocols/http.rs.
use iron_babel.Base.{
  ℕ, zero, suc, ◌<◌, ◌≡◌, refl, ap, ◌↔◌, ◌⊎◌, inl, inr, ◌≢◌, true, [], ◌∷◌, arith, length,
  length-map, Bool-cases,
}
use iron_babel.Text.{Str, str_eq, lower_byte, to_ascii_lowercase}
use iron_babel.Text.Laws.{str_eq_iff}
use iron_babel.HttpGuard.Scan.{next_state, scan, scan_cons, scan_step, has_dotdot-scan}
use iron_babel.HttpGuard.{
  is_escape, replace_escape, decode_round, decode_until_stable, has_dotdot, path_contains_traversal,
}

-- The passes never lengthen a text, and one that changes it shortens it.
length-replace_escape :
    (h c : ℕ) (s : Str) → (replace_escape h c s ≡ s) ⊎ (length (replace_escape h c s) < length s)
unfolding replace_escape
length-replace_escape h c [] = inl refl
length-replace_escape h c (x ∷ []) = inl refl
length-replace_escape h c (x ∷ y ∷ []) = inl refl
length-replace_escape h c (x ∷ y ∷ z ∷ s) =
    ground (arith, length-replace_escape h c s, length-replace_escape h c (y ∷ z ∷ s))

length-decode_round : (p : Str) → (decode_round p ≡ p) ⊎ (length (decode_round p) < length p)
unfolding decode_round
length-decode_round p = ground (
  arith,
  length-replace_escape b'5' b'%' p,
  length-replace_escape b'e' b'.' (replace_escape b'5' b'%' p),
  length-replace_escape b'f' b'/' (replace_escape b'e' b'.' (replace_escape b'5' b'%' p)),
)

-- A digit of the escapes that the passes look for.
abbrev IsHex : ℕ → Type 0
IsHex h = (h ≢ b'.') × (h ≢ b'/')

scan_of_escape :
    (h st x y z : ℕ) (s : Str)
    → IsHex h
    → is_escape h x y z ≡ true
    → scan st (x ∷ y ∷ z ∷ s) ≡ true
    → scan 3 s ≡ true
unfolding scan is_escape
scan_of_escape h st x y z s hex esc e = ground arith

-- A pass keeps a `..` segment that is there.
scan-replace_escape :
    (h c st : ℕ) (s : Str) → IsHex h → scan st s ≡ true → scan st (replace_escape h c s) ≡ true
unfolding replace_escape
scan-replace_escape h c st [] hex e = e
scan-replace_escape h c st (x ∷ []) hex e = e
scan-replace_escape h c st (x ∷ y ∷ []) hex e = e
scan-replace_escape h c st (x ∷ y ∷ z ∷ s) hex e = elim (Bool-cases (is_escape h x y z)) [
  | inl esc ↦
      rw (esc, replace_escape)
        (scan_cons st c (replace_escape h c s)
          (scan-replace_escape h c 3 s hex (scan_of_escape h st x y z s hex esc e)))
  | inr plain ↦
      rw (plain, replace_escape)
        (scan_step st x (y ∷ z ∷ s) (replace_escape h c (y ∷ z ∷ s))
          (scan-replace_escape h c 0 (y ∷ z ∷ s) hex)
          (scan-replace_escape h c (next_state st x) (y ∷ z ∷ s) hex) e)
]

scan-decode_round : (p : Str) → scan 0 p ≡ true → scan 0 (decode_round p) ≡ true
unfolding decode_round
scan-decode_round p e = scan-replace_escape b'f' b'/' 0 _ (omega arith) (
    scan-replace_escape b'e' b'.' 0 _ (omega arith)
      (scan-replace_escape b'5' b'%' 0 p (omega arith) e))

-- `n` passes.
pub rounds : ℕ → Str → Str
rounds zero p = p
rounds (suc n) p = rounds n (decode_round p)

str_eq_refl : (p : Str) → str_eq p p ≡ true
str_eq_refl p = (str_eq_iff p p).1 refl

-- With fuel above the length the loop ends at a text that a further pass does not change.
decode_until_stable-stable :
    (fuel : ℕ) (p : Str)
    → length p < fuel
    → decode_round (decode_until_stable fuel p) ≡ decode_until_stable fuel p
unfolding decode_until_stable
decode_until_stable-stable zero p h = elim h [ ]
decode_until_stable-stable (suc fuel) p h = ground (
  arith,
  str_eq_iff (decode_round p) p,
  length-decode_round p,
  decode_until_stable-stable fuel (decode_round p),
)

decode_until_stable-rounds :
    (fuel : ℕ) (p : Str) → (n : ℕ) × (decode_until_stable fuel p ≡ rounds n p)
unfolding decode_until_stable rounds
decode_until_stable-rounds zero p = (0, refl)
decode_until_stable-rounds (suc fuel) p = elim (Bool-cases (str_eq (decode_round p) p)) [
  | inl same ↦ (0, rw same)
  | inr other ↦ let (n, e) = decode_until_stable-rounds fuel (decode_round p) in (suc n, rw other e)
]

-- The loop keeps a `..` segment of its input, and of every pass over it.
scan-decode_until_stable :
    (fuel : ℕ) (p : Str) → scan 0 p ≡ true → scan 0 (decode_until_stable fuel p) ≡ true
unfolding decode_until_stable
scan-decode_until_stable zero p e = e
scan-decode_until_stable (suc fuel) p e =
    ground (arith, scan-decode_until_stable fuel (decode_round p), scan-decode_round p)

scan_of_rounds :
    (n fuel : ℕ) (p : Str)
    → length p < fuel
    → scan 0 (rounds n p) ≡ true
    → scan 0 (decode_until_stable fuel p) ≡ true
unfolding rounds decode_until_stable
scan_of_rounds zero fuel p h e = scan-decode_until_stable fuel p e
scan_of_rounds (suc n) zero p h e = elim h [ ]
scan_of_rounds (suc n) (suc fuel) p h e = elim (length-decode_round p) [
  | inl same ↦ scan_of_rounds n (suc fuel) p h (rw same at e)
  | inr less ↦ ground (
    arith,
    str_eq_iff (decode_round p) p,
    ap length {x = decode_round p} {y = p},
    scan_of_rounds n fuel (decode_round p),
  )
]

length_lower : (p : Str) → length (to_ascii_lowercase p) < suc (length p)
unfolding to_ascii_lowercase
length_lower p = omega (arith, length-map lower_byte p)

-- The guard rejects a path exactly when some number of decoding passes over its lower-case form
-- brings out a part `..` between slashes.
pub path_contains_traversal_iff :
    (path : Str)
    → (path_contains_traversal path ≡ true)
      ↔ ((n : ℕ) × (has_dotdot (rounds n (to_ascii_lowercase path)) ≡ true))
unfolding path_contains_traversal
path_contains_traversal_iff path = (
  λ h.
      let (n, e) = decode_until_stable-rounds (suc (length path)) (to_ascii_lowercase path) in
      (n, rw (← e) h),
  λ h.
      let (n, e) = h in
      rw has_dotdot-scan (
        scan_of_rounds n (suc (length path)) (to_ascii_lowercase path) (length_lower path)
          (rw has_dotdot-scan at e)),
)
