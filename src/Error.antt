-- ===== src/Error.antt =====
-- src/error.rs: the program's error type, its `Display` texts and `Result`.
use iron_babel.Base.{Bool, true, false, ◌≡◌, refl, ◌⊎◌, inl, inr, ◌↔◌, ◌++◌, arith, if◌then◌else◌}
use iron_babel.Text.{Str, text}

-- The wrapped foreign errors (`io::Error`, `serde_json::Error`, ..) by their own `Display` text.
pub data Error : Type 0 where
  io serialization yaml http : Str → Error
  protocol config graphql unauthorized : Str → Error
  rate_limited : Error
  unknown : Str → Error

unfoldable pub to_string : Error → Str
to_string (Error.io e) = text "IO error: " ++ e
to_string (Error.serialization e) = text "Serialization error: " ++ e
to_string (Error.yaml e) = text "YAML error: " ++ e
to_string (Error.http e) = text "HTTP error: " ++ e
to_string (Error.protocol m) = text "Protocol error: " ++ m
to_string (Error.config m) = text "Configuration error: " ++ m
to_string (Error.graphql m) = text "GraphQL error: " ++ m
to_string (Error.unauthorized m) = text "Unauthorized: " ++ m
to_string Error.rate_limited = text "Rate limited"
to_string (Error.unknown m) = text "Unknown error: " ++ m

-- `Result<T>`
pub data Result {ℓ} (T : Type ℓ) : Type ℓ where
  ok : T → Result T
  err : Error → Result T

abbrev pub is_ok {ℓ} : {T : Type ℓ} → Result T → Bool
is_ok (err _) = false
is_ok (ok _) = true

-- A check returns no value.
abbrev pub Checked : Type 0
Checked = Result (Unit {0})

-- `if test { return Err(e); }`
abbrev pub reject_if : Bool → Error → Checked
reject_if test refusal = if test then err refusal else ok tt

-- `?`
infixl 5 ◌>>=◌
abbrev pub ◌>>=◌ {ℓ κ} : {T : Type ℓ} {U : Type κ} → Result T → (T → Result U) → Result U
err e >>= next = err e
ok t >>= next = next t

-- The sequence of statements that may return early.
infixl 5 ◌>>◌
abbrev pub ◌>>◌ {ℓ} : {U : Type ℓ} → Checked → Result U → Result U
check >> next = check >>= λ _. next

-- A sequence of checks passes exactly when each check passes.
pub then_ok_iff : (m k : Checked) → ((m >> k) ≡ ok tt) ↔ ((m ≡ ok tt) × (k ≡ ok tt))
then_ok_iff (ok tt) k = ground arith
then_ok_iff (err e) k = ground arith

pub reject_if_iff : (b : Bool) (e : Error) → (reject_if b e ≡ ok tt) ↔ (b ≡ false)
reject_if_iff true e = ground arith
reject_if_iff false e = ground arith

-- What a sequence went through that ended well.
pub >>=-eq-ok {ℓ κ} :
    {T : Type ℓ} {U : Type κ} (r : Result T) (next : T → Result U) {u : U}
    → (r >>= next) ≡ ok u
    → (t : T) × (r ≡ ok t) × (next t ≡ ok u)
>>=-eq-ok (err _) next h = cc
>>=-eq-ok (ok t) next h = (t, refl, h)

pub checked-eq-ok {ℓ} :
    {A : Type ℓ} (m : Checked) (a : A) {b : A} → (m >> ok a) ≡ ok b → (m ≡ ok tt) × (a ≡ b)
checked-eq-ok (ok tt) a h = (refl, cc)
checked-eq-ok (err e) a h = cc

pub >>-eq-ok {ℓ} :
    {A : Type ℓ} (m : Checked) (k : Result A) {b : A} → (m >> k) ≡ ok b → (m ≡ ok tt) × (k ≡ ok b)
>>-eq-ok (ok tt) k h = (refl, h)
>>-eq-ok (err e) k h = cc

pub ok_injective {ℓ} : {A : Type ℓ} {a b : A} → ok a ≡ ok b → a ≡ b
ok_injective h = cc

pub Result-cases {ℓ} :
    {A : Type ℓ} (r : Result A) → ((a : A) × (r ≡ ok a)) ⊎ ((e : Error) × (r ≡ err e))
Result-cases (ok a) = inl (a, refl)
Result-cases (err e) = inr (e, refl)
