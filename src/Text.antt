-- ===== src/Text.antt =====
-- Rust strings as their UTF-8 bytes, and the std operations on them that the program calls.
-- `text` turns a literal of the source into its bytes; every literal used is ASCII.
pub mod Laws
pub mod Decimal
use Prim.Native.Char.{code}
use Prim.Native.String.{String}
use iron_babel.Base.{
  ℕ, zero, suc, ◌+◌, ◌-◌, ◌*◌, ◌/◌, ◌%◌, Bool, true, false, ◌&&◌, ◌||◌, List, [], ◌∷◌, map, Option,
  none, some, ltb, leb, ◌==◌, if◌then◌else◌,
}

abbrev pub Str : Type 0
Str = List ℕ

unfoldable pub text : String → Str
text String.[] = []
text (String.◌∷◌ c s) = code c ∷ text s

-- `==` on str.
unfoldable pub str_eq : Str → Str → Bool
str_eq [] [] = true
str_eq [] (_ ∷ _) = false
str_eq (_ ∷ _) [] = false
str_eq (a ∷ s) (b ∷ t) = a == b && str_eq s t

unfoldable pub is_empty : Str → Bool
is_empty [] = true
is_empty (_ ∷ _) = false

-- `s.starts_with(prefix)`, the prefix first; `strip_prefix` gives what follows it.
unfoldable pub strip_prefix : Str → Str → Option Str
strip_prefix [] s = some s
strip_prefix (_ ∷ _) [] = none
strip_prefix (p ∷ ps) (c ∷ s) = let rest = strip_prefix ps s in if p == c then rest else none

unfoldable pub starts_with : Str → Str → Bool
starts_with [] s = true
starts_with (_ ∷ _) [] = false
starts_with (p ∷ ps) (c ∷ s) = p == c && starts_with ps s

unfoldable pub ends_with_byte : ℕ → Str → Bool
ends_with_byte b [] = false
ends_with_byte b (c ∷ []) = c == b
ends_with_byte b (_ ∷ d ∷ s) = ends_with_byte b (d ∷ s)

-- `trim_end_matches(b)` for one ASCII byte.
unfoldable pub trim_end_byte : ℕ → Str → Str
trim_end_byte b [] = []
trim_end_byte b (c ∷ s) = trim_step (trim_end_byte b s)
  where
    trim_step : Str → Str
    trim_step [] = if c == b then [] else c ∷ []
    trim_step (d ∷ t) = c ∷ d ∷ t

unfoldable pub lower_byte : ℕ → ℕ
lower_byte c = if leb b'A' c && leb c b'Z' then c + 32 else c

unfoldable pub upper_byte : ℕ → ℕ
upper_byte c = if leb b'a' c && leb c b'z' then c - 32 else c

-- `to_ascii_lowercase`, `to_ascii_uppercase`, `eq_ignore_ascii_case`.
unfoldable pub to_ascii_lowercase : Str → Str
unfolding lower_byte
to_ascii_lowercase s = map lower_byte s

unfoldable pub to_ascii_uppercase : Str → Str
unfolding upper_byte
to_ascii_uppercase s = map upper_byte s

unfoldable pub eq_ignore_ascii_case : Str → Str → Bool
unfolding to_ascii_lowercase str_eq
eq_ignore_ascii_case s t = str_eq (to_ascii_lowercase s) (to_ascii_lowercase t)

-- The characters with the Unicode property White_Space, by the number of bytes that encode them.
is_space1 : ℕ → Bool
is_space1 a = leb 9 a && leb a 13 || a == 32

is_space2 : ℕ → ℕ → Bool
is_space2 a b = a == 0xc2 && (b == 0x85 || b == 0xa0)

is_space3 : ℕ → ℕ → ℕ → Bool
is_space3 a b c =
    a == 0xe1 && b == 0x9a && c == 0x80
    || (a == 0xe2 && b == 0x80 && (leb 0x80 c && leb c 0x8a || c == 0xa8 || c == 0xa9 || c == 0xaf)
        || (a == 0xe2 && b == 0x81 && c == 0x9f || a == 0xe3 && b == 0x80 && c == 0x80))

-- `s.trim().is_empty()`: the text is white space only.
unfoldable pub is_blank : Str → Bool
unfolding is_space1 is_space2 is_space3
is_blank [] = true
is_blank (a ∷ []) = is_space1 a
is_blank (a ∷ b ∷ []) = elim (is_space1 a) [ true ↦ is_blank (b ∷ []) | false ↦ is_space2 a b ]
is_blank (a ∷ b ∷ c ∷ s) = elim (is_space1 a) [
  | true ↦ is_blank (b ∷ c ∷ s)
  | false ↦ elim (is_space2 a b) [
    | true ↦ is_blank (c ∷ s)
    | false ↦ elim (is_space3 a b c) [ true ↦ is_blank s | false ↦ false ]
  ]
]

-- `str::parse` of an unsigned number: an optional `+`, then at least one digit, at most `max`.
digits_from : ℕ → ℕ → Str → Option ℕ
digits_from max n [] = some n
digits_from max n (c ∷ s) =
    let rest = digits_from max (n * 10 + (c - 48)) s in
    if leb 48 c && leb c 57 && leb (n * 10 + (c - 48)) max then rest else none

unfoldable pub parse_unsigned : ℕ → Str → Option ℕ
unfolding digits_from
parse_unsigned max [] = none
parse_unsigned max (c ∷ []) = if c == b'+' then none else digits_from max 0 (c ∷ [])
parse_unsigned max (c ∷ d ∷ s) =
    if c == b'+' then digits_from max 0 (d ∷ s) else digits_from max 0 (c ∷ d ∷ s)

abbrev pub parse_u16 : Str → Option ℕ
parse_u16 = parse_unsigned 65535

abbrev pub parse_u64 : Str → Option ℕ
parse_u64 = parse_unsigned 18446744073709551615

-- `n.to_string()` of an unsigned number, with one round of fuel for each digit and more.
decimal_from : ℕ → ℕ → Str → Str
decimal_from zero n acc = acc
decimal_from (suc fuel) n acc = elim (ltb n 10) [
  | true ↦ (b'0' + n) ∷ acc
  | false ↦ decimal_from fuel (n / 10) ((b'0' + n % 10) ∷ acc)
]

unfoldable pub decimal : ℕ → Str
unfolding decimal_from
decimal n = decimal_from (suc n) n []
