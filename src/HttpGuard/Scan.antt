-- ===== src/HttpGuard/Scan.antt =====
-- Splitting a path at slashes and looking for the part `..`, as one scan over the path.
use iron_babel.Base.{
  ℕ, suc, ◌≡◌, refl, sym, ◌∙◌, inl, inr, Bool, true, ◌&&◌, ◌||◌, List, [], ◌∷◌, arith, ltb, ◌==◌,
  if◌then◌else◌, any, Bool-cases,
}
use iron_babel.Text.{Str, text, str_eq}
use iron_babel.HttpGuard.{push_head, split_byte, has_dotdot}

-- The same test as one scan: how much of `..` the segment so far is, 3 if it is anything else.
abbrev pub next_state : ℕ → ℕ → ℕ
next_state st c = if c == b'.' && ltb st 2 then suc st else 3

unfoldable pub scan : ℕ → Str → Bool
scan st [] = st == 2
scan st (c ∷ s) =
    let closed = scan 0 s in
    let longer = scan (next_state st c) s in if c == b'/' then st == 2 || closed else longer

pub scan_3 : (st : ℕ) (s : Str) → scan 3 s ≡ true → scan st s ≡ true
unfolding scan
scan_3 st [] h = cc
scan_3 st (c ∷ s) h = ground (arith, scan_3 (next_state st c) s)

pub scan_cons : (st c : ℕ) (s : Str) → scan 3 s ≡ true → scan st (c ∷ s) ≡ true
unfolding scan
scan_cons st c s h = ground (arith, scan_3 0 s, scan_3 (next_state st c) s)

pub scan_step :
    (st x : ℕ) (s t : Str)
    → (scan 0 s ≡ true → scan 0 t ≡ true)
    → (scan (next_state st x) s ≡ true → scan (next_state st x) t ≡ true)
    → scan st (x ∷ s) ≡ true
    → scan st (x ∷ t) ≡ true
unfolding scan
scan_step st x s t f g e = ground arith

-- The scan finds what splitting at slashes and comparing each part finds.
is_dotdot : Str → Bool
is_dotdot seg = str_eq seg (text "..")

state_after : ℕ → Str → ℕ
state_after st [] = st
state_after st (c ∷ s) = state_after (next_state st c) s

state_after_3 : (s : Str) → state_after 3 s ≡ 3
unfolding state_after
state_after_3 [] = refl
state_after_3 (c ∷ s) = ground (arith, state_after_3 s)

is_dotdot_lem : (seg : Str) → is_dotdot seg ≡ (state_after 0 seg == 2)
unfolding is_dotdot state_after str_eq text
is_dotdot_lem [] = refl
is_dotdot_lem (a ∷ []) = ground arith
is_dotdot_lem (a ∷ b ∷ []) = ground arith
is_dotdot_lem (a ∷ b ∷ c ∷ s) = ground (arith, state_after_3 s)

-- The parts of a text behind a first part in state `st`.
parts_test : ℕ → List Str → Bool
parts_test st [] = st == 2
parts_test st (seg ∷ segs) = state_after st seg == 2 || any is_dotdot segs

parts_test_0 : (segs : List Str) → any is_dotdot segs ≡ parts_test 0 segs
unfolding parts_test any
parts_test_0 [] = refl
parts_test_0 (seg ∷ segs) = rw (is_dotdot_lem seg)

parts_test-push_head :
    (st c : ℕ) (segs : List Str)
    → parts_test st (push_head c segs) ≡ parts_test (next_state st c) segs
unfolding parts_test push_head state_after any
parts_test-push_head st c [] = ground arith
parts_test-push_head st c (seg ∷ segs) = refl

scan-parts_test : (st : ℕ) (s : Str) → scan st s ≡ parts_test st (split_byte b'/' s)
unfolding scan split_byte parts_test state_after any
scan-parts_test st [] = ground arith
scan-parts_test st (c ∷ s) = elim (Bool-cases (c == b'/')) [
  | inl slash ↦ rw slash (ground (arith, parts_test_0 (split_byte b'/' s), scan-parts_test 0 s))
  | inr other ↦
      rw other
        (scan-parts_test (next_state st c) s ∙ sym (parts_test-push_head st c (split_byte b'/' s)))
]

pub has_dotdot-scan : (p : Str) → has_dotdot p ≡ scan 0 p
unfolding has_dotdot is_dotdot
has_dotdot-scan p = parts_test_0 (split_byte b'/' p) ∙ sym (scan-parts_test 0 p)
