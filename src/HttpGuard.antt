-- ===== src/HttpGuard.antt =====
-- src/protocols/http.rs: the guards on request paths, queries and headers.
mod Scan
pub mod Traversal
pub mod Safety
use iron_babel.Base.{
  ℕ, zero, suc, ◌≤◌, Bool, true, false, not, ◌&&◌, ◌||◌, String, List, [], ◌∷◌, map, ltb, leb, ◌==◌,
  if◌then◌else◌, length, any, retain,
}
use iron_babel.Text.{Str, text, str_eq, starts_with, to_ascii_lowercase}

-- `s.replace("%2h", "c")` for the digit `h`: every occurrence, from the left.
is_escape : ℕ → ℕ → ℕ → ℕ → Bool
is_escape h x y z = x == b'%' && (y == b'2' && z == h)

unfoldable pub replace_escape : ℕ → ℕ → Str → Str
unfolding is_escape
replace_escape h c (x ∷ y ∷ z ∷ s) = elim (is_escape h x y z) [
  | true ↦ c ∷ replace_escape h c s
  | false ↦ x ∷ replace_escape h c (y ∷ z ∷ s)
]
replace_escape h c s = s

-- One pass of the loop: `%25`, `%2e` and `%2f` in turn.
unfoldable pub decode_round : Str → Str
decode_round p = replace_escape b'f' b'/' (replace_escape b'e' b'.' (replace_escape b'5' b'%' p))

-- The loop until a pass changes nothing. Each other pass shortens the text, so that a fuel above
-- its length is enough.
unfoldable pub decode_until_stable : ℕ → Str → Str
decode_until_stable zero p = p
decode_until_stable (suc fuel) p =
    let rest = decode_until_stable fuel (decode_round p) in
    if str_eq (decode_round p) p then p else rest

-- `p.split(b)` for one byte.
push_head : ℕ → List Str → List Str
push_head c [] = (c ∷ []) ∷ []
push_head c (seg ∷ segs) = (c ∷ seg) ∷ segs

unfoldable pub split_byte : ℕ → Str → List Str
unfolding push_head
split_byte b [] = [] ∷ []
split_byte b (c ∷ s) = let rest = split_byte b s in if c == b then [] ∷ rest else push_head c rest

unfoldable pub has_dotdot : Str → Bool
has_dotdot p = any (λ seg. str_eq seg (text "..")) (split_byte b'/' p)

unfoldable pub path_contains_traversal : Str → Bool
path_contains_traversal path =
    has_dotdot (decode_until_stable (suc (length path)) (to_ascii_lowercase path))

unfoldable pub is_ascii_control : ℕ → Bool
is_ascii_control c = ltb c 32 || c == 127

unfoldable pub path_is_safe : Str → Bool
unfolding is_ascii_control
path_is_safe path =
    starts_with (text "/") path && not (any (λ c. is_ascii_control c || (c == 32 || c == 92)) path)

unfoldable pub query_is_safe : Str → Bool
unfolding is_ascii_control
query_is_safe query = not (any (λ c. is_ascii_control c || c == 32) query)

abbrev pub Header : Type 0
Header = Str × Str

-- Header names come from `HeaderName`, which holds ASCII only: there `to_lowercase` is the ASCII one.
unfoldable pub hop_by_hop : List Str
hop_by_hop = map text (
    "connection" ∷ "keep-alive" ∷ "proxy-authenticate" ∷ "proxy-authorization" ∷ "te" ∷ "trailers"
    ∷ "transfer-encoding" ∷ "upgrade" ∷ [])

unfoldable pub is_listed : List Str → Str → Bool
is_listed names name = any (λ n. str_eq n (to_ascii_lowercase name)) names

unfoldable pub strip_hop_by_hop_headers : List Header → List Header
strip_hop_by_hop_headers headers = retain (λ h. not (is_listed hop_by_hop h.0)) headers

abbrev pub max_body_size : ℕ
max_body_size = 10485760
