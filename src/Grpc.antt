-- ===== src/Grpc.antt =====
-- src/protocols/grpc.rs: length-prefixed frames. Bytes are numbers below 256, `usize` has 64 bits,
-- so that the sum of a header and a 32-bit length does not overflow.
pub mod Bytes
pub mod RoundTrip
use mathlib.Core.WellFounded.{Acc}
use mathlib.Core.Logic.{dite}
use native.Mathlib.Decide.{dec_le}
use iron_babel.Base.{
  ℕ, String, ◌+◌, ◌-◌, ◌*◌, ◌/◌, ◌%◌, not, List, [], ◌∷◌, ◌++◌, arith, ltb, ◌==◌, if◌then◌else◌,
  length, take, drop, length-drop,
}
use iron_babel.Base.Order.{Shorter, Shorter-Acc}
use iron_babel.Text.{Str, text, decimal}
use iron_babel.Error.{Error, Result, ok, err}

abbrev pub grpc_header_len : ℕ
grpc_header_len = 5

-- `u32::to_be_bytes` and `u32::from_be_bytes`.
unfoldable pub to_be_bytes : ℕ → Str
to_be_bytes n = (n / 16777216 % 256) ∷ (n / 65536 % 256) ∷ (n / 256 % 256) ∷ (n % 256) ∷ []

unfoldable pub from_be_bytes : ℕ → ℕ → ℕ → ℕ → ℕ
from_be_bytes a b c d = a * 16777216 + b * 65536 + c * 256 + d

-- `payload.len() as u32` wraps.
unfoldable pub encode_grpc_frame : Str → Str
encode_grpc_frame payload = 0 ∷ (to_be_bytes (length payload % 4294967296) ++ payload)

unsupported_flag : ℕ → Error
unsupported_flag flag = Error.protocol (
    text "Unsupported gRPC compression flag: "
    ++ (decimal flag ++ text " (only uncompressed (0) is supported)"))

truncated : ℕ → ℕ → Error
truncated declared got = Error.protocol (
    text "gRPC frame payload truncated: declared "
    ++ (decimal declared ++ (text " bytes, got " ++ decimal got)))

too_short : String → ℕ → Error
too_short what got = Error.protocol (
    text "gRPC frame too short: "
    ++ (decimal got
        ++ (text what ++ (text " (expected at least " ++ (decimal grpc_header_len ++ text ")")))))

decode_payload : ℕ → Str → Result Str
decode_payload declared payload =
    if ltb (length payload) declared
    then err (truncated declared (length payload))
    else ok (take declared payload)

unfoldable pub decode_grpc_frame : Str → Result Str
unfolding decode_payload unsupported_flag truncated too_short
decode_grpc_frame (flag ∷ a ∷ b ∷ c ∷ d ∷ payload) =
    if not (flag == 0)
    then err (unsupported_flag flag)
    else decode_payload (from_be_bytes a b c d) payload
decode_grpc_frame bytes = err (too_short " bytes" (length bytes))

-- What is left behind a frame is shorter than the frame with it.
pub shorter_rest :
    (flag a b c d n : ℕ) (payload : Str) → Shorter (drop n payload) (flag ∷ a ∷ b ∷ c ∷ d ∷ payload)
shorter_rest flag a b c d n payload = omega (arith, length-drop n payload)

-- The `while` loop; `remaining` is `&data[offset..]`.
unfoldable pub decode_from : (remaining : Str) → Acc Shorter remaining → Str → Result Str
unfolding unsupported_flag truncated too_short
decode_from [] w out = ok out
decode_from (flag ∷ a ∷ b ∷ c ∷ d ∷ payload) (Acc.intro _ smaller) out =
    let rest =
      dite (dec_le (from_be_bytes a b c d) (length payload))
        (λ fits.
          decode_from (drop (from_be_bytes a b c d) payload)
            (smaller _ (shorter_rest flag a b c d (from_be_bytes a b c d) payload))
            (out ++ take (from_be_bytes a b c d) payload))
        (λ _. err (truncated (from_be_bytes a b c d) (length payload))) in
    if not (flag == 0) then err (unsupported_flag flag) else rest
decode_from remaining w out = err (too_short " trailing bytes" (length remaining))

unfoldable pub decode_grpc_frames : Str → Result Str
unfolding decode_from Shorter-Acc
decode_grpc_frames bytes = decode_from bytes (Shorter-Acc bytes) []
