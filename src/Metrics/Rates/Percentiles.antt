-- ===== src/Metrics/Rates/Percentiles.antt =====
-- The sort and the percentiles of src/admin/store.rs.
use iron_babel.Base.{
  ℕ, zero, suc, ◌<◌, ◌≤◌, refl, List, [], ◌∷◌, arith, leb, length, get_or, In, All, All-In, inl,
  inr, Bool-cases, ◌≢◌,
}
use iron_babel.Metrics.{MetricsStore}
use iron_babel.Metrics.Rates.{insert, sort, percentile, get_percentiles}

abbrev IsSorted : List ℕ → Type 0
IsSorted [] = Unit
IsSorted (x ∷ xs) = All (λ y. x ≤ y) xs × IsSorted xs

insert-ne : (x : ℕ) (xs : List ℕ) → insert x xs ≢ []
unfolding insert
insert-ne x [] h = cc
insert-ne x (y ∷ ys) h = elim (Bool-cases (leb x y)) [
  | inl le ↦ absurd (cc (rw le at h))
  | inr gt ↦ absurd (cc (rw gt at h))
]

All_insert : (P : ℕ → Type 0) (x : ℕ) (xs : List ℕ) → P x → All P xs → All P (insert x xs)
unfolding insert
All_insert P x [] h hs = (h, tt)
All_insert P x (y ∷ ys) h hs = elim (Bool-cases (leb x y)) [
  | inl le ↦ rw le (h, hs)
  | inr gt ↦ rw gt (hs.0, All_insert P x ys h hs.1)
]

All_le : (x y : ℕ) (ys : List ℕ) → x ≤ y → All (λ z. y ≤ z) ys → All (λ z. x ≤ z) ys
All_le x y [] h hs = tt
All_le x y (z ∷ zs) h hs = (omega (arith, h, hs.0), All_le x y zs h hs.1)

insert-IsSorted : (x : ℕ) (xs : List ℕ) → IsSorted xs → IsSorted (insert x xs)
unfolding insert
insert-IsSorted x [] h = (tt, tt)
insert-IsSorted x (y ∷ ys) h = elim (Bool-cases (leb x y)) [
  | inl le ↦ rw le ((ground arith, All_le x y ys (ground arith) h.0), h)
  | inr gt ↦ rw gt (All_insert (λ z. y ≤ z) x ys (ground arith) h.0, insert-IsSorted x ys h.1)
]

sort-IsSorted : (xs : List ℕ) → IsSorted (sort xs)
unfolding sort
sort-IsSorted [] = tt
sort-IsSorted (x ∷ xs) = insert-IsSorted x (sort xs) (sort-IsSorted xs)

In-insert : (x y : ℕ) (ys : List ℕ) → In x (insert y ys) → In x (y ∷ ys)
unfolding insert
In-insert x y [] h = h
In-insert x y (z ∷ zs) h = elim (Bool-cases (leb y z)) [
  | inl le ↦ rw le at h
  | inr gt ↦ elim (rw gt at h) [
    | inl e ↦ inr (inl e)
    | inr i ↦ elim (In-insert x y zs i) [ inl e ↦ inl e | inr j ↦ inr (inr j) ]
  ]
]

In-sort : (x : ℕ) (xs : List ℕ) → In x (sort xs) → In x xs
unfolding sort
In-sort x [] h = h
In-sort x (y ∷ ys) h = elim (In-insert x y (sort ys) h) [
  | inl e ↦ inl e
  | inr i ↦ inr (In-sort x ys i)
]

get_or-In : (xs : List ℕ) (i d : ℕ) → i < length xs → In (get_or xs i d) xs
get_or-In [] i d h = absurd (omega arith)
get_or-In (x ∷ xs) zero d h = inl refl
get_or-In (x ∷ xs) (suc i) d h = inr (get_or-In xs i d (omega arith))

-- Of a sorted list, a later element is at least as large.
get_or-le :
    (xs : List ℕ) (i j d : ℕ) → IsSorted xs → i ≤ j → j < length xs → get_or xs i d ≤ get_or xs j d
get_or-le [] i j d s h k = absurd (omega arith)
get_or-le (x ∷ xs) zero zero d s h k = omega arith
get_or-le (x ∷ xs) zero (suc j) d s h k =
    All-In (λ y. x ≤ y) xs s.0 _ (get_or-In xs j d (omega arith))
get_or-le (x ∷ xs) (suc i) zero d s h k = absurd (omega arith)
get_or-le (x ∷ xs) (suc i) (suc j) d s h k = get_or-le xs i j d s.1 (omega arith) (omega arith)

module _ (ceil_rank : ℕ → ℕ → ℕ) where
  percentile-le :
      (xs : List ℕ) (p q : ℕ)
      → IsSorted xs
      → ((n : ℕ) → ceil_rank p n ≤ ceil_rank q n)
      → percentile ceil_rank xs p ≤ percentile ceil_rank xs q
  unfolding percentile
  percentile-le [] p q s h = omega arith
  percentile-le (x ∷ xs) p q s h =
      get_or-le (x ∷ xs) _ _ x s (omega (arith, h (length (x ∷ xs)))) (omega arith)

  -- If a larger percentage has no smaller rank, the three percentiles do not fall.
  pub get_percentiles-ordered :
      (store : MetricsStore)
      → ((n : ℕ) → (ceil_rank 50 n ≤ ceil_rank 95 n) × (ceil_rank 95 n ≤ ceil_rank 99 n))
      → ((get_percentiles ceil_rank store).0 ≤ (get_percentiles ceil_rank store).1)
        × ((get_percentiles ceil_rank store).1 ≤ (get_percentiles ceil_rank store).2)
  unfolding get_percentiles
  get_percentiles-ordered store h =
      let s = sort-IsSorted store.recent_latencies in
      (
        percentile-le (sort store.recent_latencies) 50 95 s (λ n. (h n).0),
        percentile-le (sort store.recent_latencies) 95 99 s (λ n. (h n).1),
      )

  percentile-In : (xs : List ℕ) (p : ℕ) → xs ≢ [] → In (percentile ceil_rank xs p) xs
  unfolding percentile
  percentile-In [] p h = absurd (h refl)
  percentile-In (x ∷ xs) p h = get_or-In (x ∷ xs) _ x (omega arith)

  -- Whatever the ranks, a percentile of recorded latencies is one of them.
  percentile-sort-In :
      (x : ℕ) (xs : List ℕ) (p : ℕ) → In (percentile ceil_rank (sort (x ∷ xs)) p) (x ∷ xs)
  unfolding sort
  percentile-sort-In x xs p =
      In-sort _ (x ∷ xs) (percentile-In (sort (x ∷ xs)) p (insert-ne x (sort xs)))
