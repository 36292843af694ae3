-- ===== src/Router/Choice.antt =====
-- Which route `Router::route` of src/core/router.rs chooses, without its sort.
use iron_babel.Base.{
  ℕ, ◌≤◌, ◌≡◌, refl, subst, ◌↔◌, ◌⊎◌, inl, inr, Bool, true, false, List, [], ◌∷◌, Option, none,
  some, arith, leb, if◌then◌else◌, length, All, In, All-In, All_map, Bool-cases, Option-cases,
  not_true,
}
use iron_babel.Text.{Str}
use iron_babel.Config.Types.{RouteConfig}
use iron_babel.Router.{new, route, is_valid_method, accepts, find}
use iron_babel.Router.Sort.{insert_desc, sort_desc, IsDescending, sort_desc-IsDescending}
use iron_babel.Router.Matching.{Accepts, accepts_iff}

module _ {A : Type 0} (key : A → ℕ) (p : A → Bool) where
  -- The reference: one pass over the list in its own order.
  prefer : A → Option A → Option A
  prefer x none = some x
  prefer x (some y) = if leb (key y) (key x) then some x else some y

  pub best : List A → Option A
  best [] = none
  best (x ∷ xs) = if p x then prefer x (best xs) else best xs

  find-le : (n : ℕ) (xs : List A) (y : A) → All (λ z. key z ≤ n) xs → find p xs ≡ some y → key y ≤ n
  unfolding find
  find-le n [] y h e = cc
  find-le n (x ∷ xs) y h e = ground (arith, find-le n xs y h.1)

  find-insert_desc :
      (x : A) (ys : List A)
      → IsDescending key ys
      → find p (insert_desc key x ys) ≡ (if p x then prefer x (find p ys) else find p ys)
  unfolding find insert_desc prefer
  find-insert_desc x [] h = refl
  find-insert_desc x (y ∷ ys) h = elim (Option-cases (find p ys)) [
    | inl missed ↦ ground (arith, find-insert_desc x ys h.1)
    | inr (z, found) ↦
        let below = find-le (key y) ys z h.0 found in ground (arith, find-insert_desc x ys h.1)
  ]

  find-sort_desc : (xs : List A) → find p (sort_desc key xs) ≡ best xs
  unfolding find sort_desc best
  find-sort_desc [] = refl
  find-sort_desc (x ∷ xs) = ground (
    arith,
    find-insert_desc x (sort_desc key xs) (sort_desc-IsDescending key xs),
    find-sort_desc xs,
  )

  abbrev IsBest : List A → A → Type 0
  IsBest xs y = All (λ z. p z ≡ true → key z ≤ key y) xs

  IsBest-le : (xs : List A) (y z : A) → key y ≤ key z → IsBest xs y → IsBest xs z
  IsBest-le [] y z le h = tt
  IsBest-le (x ∷ xs) y z le h = (λ e. ground (arith, h.0 e), IsBest-le xs y z le h.1)

  IsBest-of_none : (xs : List A) (y : A) → All (λ z. p z ≡ false) xs → IsBest xs y
  IsBest-of_none [] y h = tt
  IsBest-of_none (x ∷ xs) y h = (λ e. cc (h.0), IsBest-of_none xs y h.1)

  -- What the reference finds.
  best-eq-none : (xs : List A) → (best xs ≡ none) ↔ All (λ z. p z ≡ false) xs
  unfolding best prefer
  best-eq-none [] = ground arith
  best-eq-none (x ∷ xs) = ground (arith, best-eq-none xs)

  best-eq-some : (xs : List A) (y : A) → best xs ≡ some y → In y xs × (p y ≡ true) × IsBest xs y
  unfolding best prefer
  best-eq-some [] y e = cc
  best-eq-some (x ∷ xs) y e = elim (Bool-cases (p x)) [
    | inr rejected ↦ let (i, py, h) = best-eq-some xs y (ground arith) in (inr i, py, (λ q. cc, h))
    | inl accepted ↦ elim (Option-cases (best xs)) [
      | inl missed ↦
          let same : x ≡ y = ground arith in
          subst (λ w. In w (x ∷ xs) × (p w ≡ true) × IsBest (x ∷ xs) w) same
            (
              inl refl,
              accepted,
              (λ _. omega arith, IsBest-of_none xs x ((best-eq-none xs).0 missed)),
            )
      | inr (s, found) ↦
          let (i, ps, h) = best-eq-some xs s found in
          elim (Bool-cases (leb (key s) (key x))) [
            | inl above ↦
                let same : x ≡ y = ground arith in
                subst (λ w. In w (x ∷ xs) × (p w ≡ true) × IsBest (x ∷ xs) w) same
                  (inl refl, accepted, (λ _. omega arith, IsBest-le xs s x (ground arith) h))
            | inr below ↦
                let same : s ≡ y = ground arith in
                subst (λ w. In w (x ∷ xs) × (p w ≡ true) × IsBest (x ∷ xs) w) same
                  (inr i, ps, (λ _. ground arith, h))
          ]
    ]
  ]

pub route-eq-best :
    (rs : List RouteConfig) (method path : Str)
    → route (new rs) method path ≡ (
        if is_valid_method method then best (λ r. length r.path) (accepts method path) rs else none)
unfolding route new
route-eq-best rs method path = rw (find-sort_desc (λ r. length r.path) (accepts method path) rs)

-- What a chosen route satisfies.
pub record IsChosen (rs : List RouteConfig) (method path : Str) (r : RouteConfig) : Type 0 where
  pub listed : In r rs
  pub method_valid : is_valid_method method ≡ true
  pub accepted : Accepts method path r
  pub longest : (s : RouteConfig) → In s rs → Accepts method path s → length s.path ≤ length r.path

-- The chosen route is one of the configured, accepts the request, and no accepting route has a
-- longer path.
pub route-IsChosen :
    (rs : List RouteConfig) (method path : Str) (r : RouteConfig)
    → route (new rs) method path ≡ some r
    → IsChosen rs method path r
route-IsChosen rs method path r h = elim (Bool-cases (is_valid_method method)) [
  | inl valid ↦
      let (listed, accepted, best_of) =
        best-eq-some (λ r. length r.path) (accepts method path) rs r
          (rw valid at (rw (route-eq-best rs method path) at h)) in
      record {
        listed = listed;
        method_valid = valid;
        accepted = (accepts_iff method path r).0 accepted;
        longest = λ s i a. All-In _ rs best_of s i ((accepts_iff method path s).1 a);
      }
  | inr invalid ↦ cc (rw invalid at (rw (route-eq-best rs method path) at h))
]

-- No route is found exactly when the method is malformed or no configured route accepts.
pub route-eq-none_iff :
    (rs : List RouteConfig) (method path : Str)
    → (route (new rs) method path ≡ none)
      ↔ ((is_valid_method method ≡ false) ⊎ All (λ r. ¬ (Accepts method path r)) rs)
route-eq-none_iff rs method path =
    rw (route-eq-best rs method path) (elim (Bool-cases (is_valid_method method)) [
      | inr invalid ↦ rw invalid (ground arith)
      | inl valid ↦
          let none_iff = best-eq-none (λ r. length r.path) (accepts method path) rs in
          rw valid (
            λ e.
                inr (All_map _ _ (λ r f a. cc ((accepts_iff method path r).1 a)) rs (none_iff.0 e)),
            elim [
              | inl bad ↦ cc
              | inr h ↦
                  none_iff.1 (
                    All_map _ _ (λ r n. not_true _ (λ t. n ((accepts_iff method path r).0 t))) rs h)
            ],
          )
    ])
