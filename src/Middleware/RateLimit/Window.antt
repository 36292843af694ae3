-- ===== src/Middleware/RateLimit/Window.antt =====
-- How the map of timestamps and a log of all admitted requests change, client by client.
use iron_babel.Base.{
  ℕ, ◌≤◌, ◌≡◌, ◌≢◌, refl, sym, false, List, [], ◌∷◌, ◌++◌, arith, if◌then◌else◌, length, retain,
  All, inl, inr, Bool-cases,
}
use iron_babel.Text.{Str, str_eq}
use iron_babel.Text.Laws.{str_eq_iff}
use iron_babel.Json.{HasDistinctKeys}
use iron_babel.Middleware.RateLimit.{Limits, timestamps_of, put, recent, has_any, evict}

-- The log: every admitted request with its client and time, the latest last.
abbrev pub Log : Type 0
Log = List (Str × ℕ)

unfoldable pub times_of : Str → Log → List ℕ
times_of key [] = []
times_of key ((k, t) ∷ log) = let rest = times_of key log in if str_eq k key then t ∷ rest else rest

module _ (window : ℕ) where
  pub recent-recent :
      (now later : ℕ) (ts : List ℕ)
      → now ≤ later
      → recent later window (recent now window ts) ≡ recent later window ts
  unfolding recent retain
  recent-recent now later [] h = refl
  recent-recent now later (t ∷ ts) h = ground (arith, recent-recent now later ts h)

  pub recent-append :
      (now : ℕ) (ts : List ℕ)
      → recent now window (ts ++ now ∷ []) ≡ recent now window ts ++ now ∷ []
  unfolding recent retain
  recent-append now [] = ground arith
  recent-append now (t ∷ ts) = ground (arith, recent-append now ts)

  pub length-recent_le :
      (now later : ℕ) (ts : List ℕ)
      → now ≤ later
      → length (recent later window ts) ≤ length (recent now window ts)
  unfolding recent retain
  length-recent_le now later [] h = omega arith
  length-recent_le now later (t ∷ ts) h = ground (arith, length-recent_le now later ts h)

  pub timestamps_of-put :
      (j k : Str) (ts : List ℕ) (m : Limits)
      → timestamps_of j (put k ts m) ≡ (if str_eq k j then ts else timestamps_of j m)
  unfolding timestamps_of put
  timestamps_of-put j k ts [] = refl
  timestamps_of-put j k ts ((i, old) ∷ m) =
      ground (arith, str_eq_iff i k, str_eq_iff i j, str_eq_iff k j, timestamps_of-put j k ts m)

  pub times_of-append :
      (j k : Str) (t : ℕ) (log : Log)
      → times_of j (log ++ (k, t) ∷ [])
        ≡ (if str_eq k j then times_of j log ++ t ∷ [] else times_of j log)
  unfolding times_of
  times_of-append j k t [] = ground arith
  times_of-append j k t ((i, u) ∷ log) = ground (arith, times_of-append j k t log)

  abbrev Absent : Str → Limits → Type 0
  Absent k m = All (λ e. e.0 ≢ k) m

  Absent-put : (i k : Str) (ts : List ℕ) (m : Limits) → k ≢ i → Absent i m → Absent i (put k ts m)
  unfolding put
  Absent-put i k ts [] ne h = (ne, tt)
  Absent-put i k ts ((j, old) ∷ m) ne h = ground (arith, Absent-put i k ts m ne h.1)

  pub put-HasDistinctKeys :
      (k : Str) (ts : List ℕ) (m : Limits) → HasDistinctKeys m → HasDistinctKeys (put k ts m)
  unfolding put
  put-HasDistinctKeys k ts [] h = (tt, tt)
  put-HasDistinctKeys k ts ((j, old) ∷ m) h = elim (Bool-cases (str_eq j k)) [
    | inl same ↦ rw same h
    | inr other ↦ rw other (
      Absent-put j k ts m (λ e. cc ((str_eq_iff j k).1 (sym e))) h.0,
      put-HasDistinctKeys k ts m h.1,
    )
  ]

  Absent-evict : (i : Str) (now : ℕ) (m : Limits) → Absent i m → Absent i (evict now window m)
  unfolding evict
  Absent-evict i now [] h = tt
  Absent-evict i now ((j, ts) ∷ m) h = ground (arith, Absent-evict i now m h.1)

  pub evict-HasDistinctKeys :
      (now : ℕ) (m : Limits) → HasDistinctKeys m → HasDistinctKeys (evict now window m)
  unfolding evict
  evict-HasDistinctKeys now [] h = tt
  evict-HasDistinctKeys now ((j, ts) ∷ m) h =
      ground (arith, Absent-evict j now m h.0, evict-HasDistinctKeys now m h.1)

  timestamps_of-Absent : (k : Str) (m : Limits) → Absent k m → timestamps_of k m ≡ []
  unfolding timestamps_of
  timestamps_of-Absent k [] h = refl
  timestamps_of-Absent k ((j, ts) ∷ m) h =
      ground (arith, str_eq_iff j k, timestamps_of-Absent k m h.1)

  pub recent_nil : (now : ℕ) → recent now window [] ≡ []
  unfolding recent retain
  recent_nil now = refl

  empty_of_has_any : (ts : List ℕ) → has_any ts ≡ false → ts ≡ []
  unfolding has_any
  empty_of_has_any [] h = refl
  empty_of_has_any (t ∷ ts) h = cc

  -- Eviction changes no client's recent requests.
  pub recent-evict :
      (k : Str) (now : ℕ) (m : Limits)
      → HasDistinctKeys m
      → recent now window (timestamps_of k (evict now window m))
        ≡ recent now window (timestamps_of k m)
  unfolding evict timestamps_of
  recent-evict k now [] h = refl
  recent-evict k now ((j, ts) ∷ m) h = elim (Bool-cases (str_eq j k)) [
    | inl same ↦ elim (Bool-cases (has_any (recent now window ts))) [
      | inl kept ↦ ground (arith, recent-recent now now ts)
      | inr idle ↦
          let gone = timestamps_of-Absent j (evict now window m) (Absent-evict j now m h.0) in
          let is_k : j ≡ k = (str_eq_iff j k).0 same in
          ground (arith, empty_of_has_any (recent now window ts), recent_nil now)
    ]
    | inr other ↦ ground (arith, recent-evict k now m h.1)
  ]
