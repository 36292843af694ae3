-- ===== src/Router.antt =====
-- src/core/router.rs: the routes in order of falling path length, and the search for a match.
pub mod Sort
pub mod Matching
pub mod Choice
use iron_babel.Base.{
  ℕ, Bool, true, false, not, ◌&&◌, ◌||◌, List, [], ◌∷◌, Option, none, some, leb, ◌==◌,
  if◌then◌else◌, length, drop, any, all,
}
use iron_babel.Text.{Str, text, is_empty, starts_with, ends_with_byte, to_ascii_uppercase, str_eq}
use iron_babel.Config.Types.{RouteConfig}
use Sort.{sort_desc}

pub record Router : Type 0 where
  pub routes : List RouteConfig

-- `routes.sort_by(|a, b| b.path.len().cmp(&a.path.len()))`, which is stable.
unfoldable pub new : List RouteConfig → Router
new routes = record { routes = sort_desc (λ r. length r.path) routes }

is_method_byte : ℕ → Bool
is_method_byte c =
    leb b'0' c && leb c b'9'
    || (leb b'A' c && leb c b'Z' || (leb b'a' c && leb c b'z' || c == b'-'))

unfoldable pub is_valid_method : Str → Bool
unfolding is_method_byte
is_valid_method method = not (is_empty method) && all is_method_byte method

unfoldable pub prefix_matches : Str → Str → Bool
prefix_matches prefix path =
    starts_with prefix path
    && (length path == length prefix
        || (starts_with (text "/") (drop (length prefix) path) || ends_with_byte b'/' prefix))

no_methods : List Str → Bool
no_methods [] = true
no_methods (_ ∷ _) = false

unfoldable pub allows_method : List Str → Str → Bool
unfolding no_methods
allows_method methods method =
    no_methods methods
    || any (λ m. str_eq (to_ascii_uppercase m) (to_ascii_uppercase method)) methods

-- The closure of `find`.
unfoldable pub accepts : Str → Str → RouteConfig → Bool
accepts method path route = prefix_matches route.path path && allows_method route.methods method

unfoldable pub find {ℓ} : {A : Type ℓ} → (A → Bool) → List A → Option A
find p [] = none
find p (x ∷ xs) = let rest = find p xs in if p x then some x else rest

unfoldable pub route : Router → Str → Str → Option RouteConfig
route router method path =
    if is_valid_method method then find (accepts method path) router.routes else none
