-- ===== src/Router/Matching.antt =====
-- When a route accepts a request, described without the tests of `Router::route`.
use iron_babel.Base.{
  ℕ, ◌≡◌, refl, subst, ◌↔◌, ◌⊎◌, inl, inr, Bool, true, List, [], ◌∷◌, ◌++◌, arith, ◌==◌, length,
  drop, length-append, drop_all_append, In, any_iff, and-left, and-right, and_true, ◌||◌,
}
use iron_babel.Text.{Str, text, starts_with, ends_with_byte, to_ascii_uppercase}
use iron_babel.Text.Laws.{starts_with_iff, str_eq_iff}
use iron_babel.Config.Types.{RouteConfig}
use iron_babel.Router.{prefix_matches, allows_method, accepts}

-- What follows the prefix begins a new segment: nothing, a slash, or anything behind a final slash.
abbrev pub AtBoundary : Str → Str → Type 0
AtBoundary prefix rest =
    ((rest ≡ []) ⊎ ((t : Str) × (rest ≡ b'/' ∷ t))) ⊎ ((q : Str) × (prefix ≡ q ++ b'/' ∷ []))

abbrev pub PathMatches : Str → Str → Type 0
PathMatches prefix path = (rest : Str) × (path ≡ prefix ++ rest) × AtBoundary prefix rest

abbrev pub MethodAllowed : List Str → Str → Type 0
MethodAllowed methods method =
    (methods ≡ []) ⊎ ((m : Str) × In m methods × (to_ascii_uppercase m ≡ to_ascii_uppercase method))

abbrev pub Accepts : Str → Str → RouteConfig → Type 0
Accepts method path r = PathMatches r.path path × MethodAllowed r.methods method

ends_with_byte-split : (b : ℕ) (s : Str) → ends_with_byte b s ≡ true → (q : Str) × (s ≡ q ++ b ∷ [])
unfolding ends_with_byte
ends_with_byte-split b [] h = cc
ends_with_byte-split b (c ∷ []) h = ([], ground arith)
ends_with_byte-split b (c ∷ d ∷ s) h = let (q, e) = ends_with_byte-split b (d ∷ s) h in (c ∷ q, cc)

ends_with_byte-append : (b : ℕ) (q : Str) → ends_with_byte b (q ++ b ∷ []) ≡ true
unfolding ends_with_byte
ends_with_byte-append b [] = ground arith
ends_with_byte-append b (x ∷ []) = ground arith
ends_with_byte-append b (x ∷ y ∷ q) = ends_with_byte-append b (y ∷ q)

ends_with_byte_iff :
    (b : ℕ) (s : Str) → (ends_with_byte b s ≡ true) ↔ ((q : Str) × (s ≡ q ++ b ∷ []))
ends_with_byte_iff b s =
    (ends_with_byte-split b s, λ h. let (q, e) = h in rw e (ends_with_byte-append b q))

slash_iff : (s : Str) → (starts_with (text "/") s ≡ true) ↔ ((t : Str) × (s ≡ b'/' ∷ t))
unfolding text
slash_iff s = starts_with_iff (b'/' ∷ []) s

same_length_iff : (p r : Str) → ((length (p ++ r) == length p) ≡ true) ↔ (r ≡ [])
same_length_iff p [] = ground (arith, length-append p [])
same_length_iff p (c ∷ r) = ground (arith, length-append p (c ∷ r))

-- The three tests of the source behind `starts_with`.
abbrev boundary_test : Str → Str → Bool
boundary_test prefix path =
    length path == length prefix
    || (starts_with (text "/") (drop (length prefix) path) || ends_with_byte b'/' prefix)

boundary_iff :
    (prefix rest : Str) → (boundary_test prefix (prefix ++ rest) ≡ true) ↔ AtBoundary prefix rest
boundary_iff prefix rest =
    rw (drop_all_append prefix rest)
      (ground (arith, same_length_iff prefix rest, slash_iff rest, ends_with_byte_iff b'/' prefix))

-- The path test of the source is the prefix relation that stops at segment boundaries.
prefix_matches_iff :
    (prefix path : Str) → (prefix_matches prefix path ≡ true) ↔ PathMatches prefix path
unfolding prefix_matches
prefix_matches_iff prefix path = (
  λ h.
      let (rest, e) =
        (starts_with_iff prefix path).0
          (and-left (starts_with prefix path) (boundary_test prefix path) h) in
      (
        rest,
        e,
        (boundary_iff prefix rest).0 (
            subst (λ q. boundary_test prefix q ≡ true) e (and-right (starts_with prefix path) _ h)),
      ),
  λ h.
      let (rest, e, boundary) = h in
      and_true ((starts_with_iff prefix path).1 (rest, e))
        (rw e ((boundary_iff prefix rest).1 boundary)),
)

allows_method_iff :
    (methods : List Str) (method : Str)
    → (allows_method methods method ≡ true) ↔ MethodAllowed methods method
unfolding allows_method
allows_method_iff [] method = (λ _. inl refl, λ _. refl)
allows_method_iff (m ∷ ms) method = (
  λ h. inr (let (a, i, e) = (any_iff _ (m ∷ ms)).0 h in (a, i, (str_eq_iff _ _).0 e)),
  elim [ inl empty ↦ cc | inr (a, i, e) ↦ (any_iff _ (m ∷ ms)).1 (a, i, (str_eq_iff _ _).1 e) ],
)

pub accepts_iff :
    (method path : Str) (r : RouteConfig) → (accepts method path r ≡ true) ↔ Accepts method path r
unfolding accepts
accepts_iff method path r =
    ground (arith, prefix_matches_iff r.path path, allows_method_iff r.methods method)
