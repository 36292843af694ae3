-- ===== src/Examples/Texts.antt =====
-- The theorems on texts, frames and paths at concrete ones.
use iron_babel.Base.{ℕ, ◌≡◌, ◌↔◌, true, arith}
use iron_babel.Text.{text, to_ascii_lowercase}
use iron_babel.HttpGuard.{path_contains_traversal, has_dotdot}
use iron_babel.HttpGuard.Traversal.{rounds, path_contains_traversal_iff}
use iron_babel.Middleware.Auth.{constant_time_eq}
use iron_babel.Middleware.Auth.Secrets.{constant_time_eq_iff}

path_contains_traversal_iff_example :
    (path_contains_traversal (text "/a/%252e%252e/b") ≡ true)
    ↔ ((n : ℕ) × (has_dotdot (rounds n (to_ascii_lowercase (text "/a/%252e%252e/b"))) ≡ true))
path_contains_traversal_iff_example = path_contains_traversal_iff (text "/a/%252e%252e/b")

constant_time_eq_iff_example :
    (constant_time_eq (text "ab") (text "ac") ≡ true) ↔ (text "ab" ≡ text "ac")
unfolding text
constant_time_eq_iff_example =
    constant_time_eq_iff (text "ab") (text "ac") (omega arith, (omega arith, tt))
      (omega arith, (omega arith, tt))
