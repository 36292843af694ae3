-- ===== src/Grpc/Bytes.antt =====
-- Big-endian lengths of src/protocols/grpc.rs on 32-bit numbers and on bytes.
use iron_babel.Base.{ℕ, ◌<◌, ◌≡◌, [], ◌∷◌, arith}
use iron_babel.Grpc.{to_be_bytes, from_be_bytes}

abbrev pub IsByte : ℕ → Type 0
IsByte n = n < 256

pub from-to_be_bytes :
    (n : ℕ)
    → n < 4294967296
    → (a b c d : ℕ) → to_be_bytes n ≡ a ∷ b ∷ c ∷ d ∷ []
    → from_be_bytes a b c d ≡ n
unfolding to_be_bytes from_be_bytes
from-to_be_bytes n h a b c d e = ground arith

pub to-from_be_bytes :
    (a b c d : ℕ)
    → IsByte a
    → IsByte b
    → IsByte c
    → IsByte d
    → (to_be_bytes (from_be_bytes a b c d) ≡ a ∷ b ∷ c ∷ d ∷ [])
      × (from_be_bytes a b c d < 4294967296)
unfolding to_be_bytes from_be_bytes
to-from_be_bytes a b c d ha hb hc hd = ground arith
