-- ===== src/HttpGuard/Safety.antt =====
-- What the guards on paths, queries and headers let through.
use iron_babel.Base.{
  ℕ, ◌≤◌, ◌≡◌, ◌≢◌, ◌↔◌, Bool, true, false, not, ◌||◌, List, [], ◌∷◌, arith, ◌==◌, any,
  retain-In_iff, All, In,
}
use iron_babel.Text.{Str, text, starts_with, to_ascii_lowercase}
use iron_babel.Text.Laws.{str_eq_iff, starts_with_iff}
use iron_babel.HttpGuard.{
  Header, is_ascii_control, path_is_safe, query_is_safe, hop_by_hop, is_listed,
  strip_hop_by_hop_headers,
}

-- Neither a control character nor a space.
abbrev pub IsVisible : ℕ → Type 0
IsVisible c = (33 ≤ c) × (c ≢ 127)

none_of_iff :
    (p : ℕ → Bool) (P : ℕ → Type 0)
    → ((c : ℕ) → (p c ≡ false) ↔ P c)
    → (s : Str) → (any p s ≡ false) ↔ All P s
unfolding any
none_of_iff p P f [] = ground arith
none_of_iff p P f (c ∷ s) = ground (arith, f c, none_of_iff p P f s)

IsVisible-iff : (c : ℕ) → ((is_ascii_control c || c == 32) ≡ false) ↔ IsVisible c
unfolding is_ascii_control
IsVisible-iff c = ground arith

path_byte_iff :
    (c : ℕ) → ((is_ascii_control c || (c == 32 || c == 92)) ≡ false) ↔ (IsVisible c × (c ≢ b'\\'))
unfolding is_ascii_control
path_byte_iff c = ground arith

-- A query is safe exactly when all its bytes are visible.
pub query_is_safe_iff : (query : Str) → (query_is_safe query ≡ true) ↔ All IsVisible query
unfolding query_is_safe
query_is_safe_iff query = ground (arith, none_of_iff _ IsVisible IsVisible-iff query)

abbrev pub IsSafePath : Str → Type 0
IsSafePath path = ((rest : Str) × (path ≡ b'/' ∷ rest)) × All (λ c. IsVisible c × (c ≢ b'\\')) path

slash_iff :
    (path : Str) → (starts_with (text "/") path ≡ true) ↔ ((rest : Str) × (path ≡ b'/' ∷ rest))
unfolding text
slash_iff path = starts_with_iff (b'/' ∷ []) path

-- A path is safe exactly when it is absolute and has only visible bytes, no backslash among them.
pub path_is_safe_iff : (path : Str) → (path_is_safe path ≡ true) ↔ IsSafePath path
unfolding path_is_safe
path_is_safe_iff path = ground (arith, slash_iff path, none_of_iff _ _ path_byte_iff path)

is_listed_iff :
    (names : List Str) (name : Str)
    → (is_listed names name ≡ true) ↔ In (to_ascii_lowercase name) names
unfolding is_listed any
is_listed_iff [] name = ground arith
is_listed_iff (n ∷ names) name =
    ground (arith, str_eq_iff n (to_ascii_lowercase name), is_listed_iff names name)

pub unlisted_iff :
    (names : List Str) (name : Str)
    → (not (is_listed names name) ≡ true) ↔ ¬ (In (to_ascii_lowercase name) names)
unlisted_iff names name = ground (arith, is_listed_iff names name)

-- Exactly the headers whose name is not a hop-by-hop name in any casing are kept.
pub strip_hop_by_hop_headers_iff :
    (h : Header) (headers : List Header)
    → In h (strip_hop_by_hop_headers headers)
      ↔ (In h headers × ¬ (In (to_ascii_lowercase h.0) hop_by_hop))
unfolding strip_hop_by_hop_headers
strip_hop_by_hop_headers_iff h headers =
    let kept = retain-In_iff (λ (h : Header). not (is_listed hop_by_hop h.0)) h headers in
    let unlisted = unlisted_iff hop_by_hop h.0 in
    (
      λ i. let (there, test) = kept.0 i in (there, unlisted.0 test),
      λ i. kept.1 (i.0, unlisted.1 i.1),
    )
