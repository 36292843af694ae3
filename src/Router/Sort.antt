-- ===== src/Router/Sort.antt =====
-- A stable sort by falling key, as `slice::sort_by` with the arguments of `cmp` swapped.
use iron_babel.Base.{ℕ, ◌≤◌, List, [], ◌∷◌, arith, leb, if◌then◌else◌, All}

module _ {A : Type 0} (key : A → ℕ) where
  -- `x` stood before all of the list, so it stays before those of its own key.
  unfoldable pub insert_desc : A → List A → List A
  insert_desc x [] = x ∷ []
  insert_desc x (y ∷ ys) =
      let later = insert_desc x ys in if leb (key y) (key x) then x ∷ y ∷ ys else y ∷ later

  unfoldable pub sort_desc : List A → List A
  sort_desc [] = []
  sort_desc (x ∷ xs) = insert_desc x (sort_desc xs)

  abbrev pub IsDescending : List A → Type 0
  IsDescending [] = Unit
  IsDescending (x ∷ xs) = All (λ y. key y ≤ key x) xs × IsDescending xs

  All-insert_desc :
      (P : A → Type 0) (x : A) (ys : List A) → P x → All P ys → All P (insert_desc x ys)
  unfolding insert_desc
  All-insert_desc P x [] p h = (p, tt)
  All-insert_desc P x (y ∷ ys) p h = ground (arith, All-insert_desc P x ys p h.1)

  All_le : (n m : ℕ) (ys : List A) → n ≤ m → All (λ y. key y ≤ n) ys → All (λ y. key y ≤ m) ys
  All_le n m [] le h = tt
  All_le n m (y ∷ ys) le h = (omega arith, All_le n m ys le h.1)

  insert_desc-IsDescending :
      (x : A) (ys : List A) → IsDescending ys → IsDescending (insert_desc x ys)
  unfolding insert_desc
  insert_desc-IsDescending x [] h = (tt, tt)
  insert_desc-IsDescending x (y ∷ ys) h = ground (
    arith,
    insert_desc-IsDescending x ys h.1,
    All_le (key y) (key x) ys,
    All-insert_desc (λ z. key z ≤ key y) x ys,
  )

  pub sort_desc-IsDescending : (xs : List A) → IsDescending (sort_desc xs)
  unfolding sort_desc
  sort_desc-IsDescending [] = tt
  sort_desc-IsDescending (x ∷ xs) =
      insert_desc-IsDescending x (sort_desc xs) (sort_desc-IsDescending xs)
