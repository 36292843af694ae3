-- ===== src/Grpc/RoundTrip.antt =====
-- Decoding and encoding of src/protocols/grpc.rs, for one frame and for sequences of frames.
use iron_babel.Base.{
  ℕ, ◌<◌, ◌≡◌, refl, List, [], ◌∷◌, ◌++◌, arith, length, All, take_all_append, length-append,
}
use iron_babel.Text.{Str}
use iron_babel.Error.{Error, ok}
use iron_babel.Grpc.{to_be_bytes, from_be_bytes, encode_grpc_frame, decode_grpc_frame}

-- The payload's length fits the header's 32 bits.
abbrev pub Fits : Str → Type 0
Fits p = length p < 4294967296

unfoldable pub joined : List Str → Str
joined [] = []
joined (p ∷ ps) = p ++ joined ps

unfoldable pub encoded : List Str → Str
encoded [] = []
encoded (p ∷ ps) = encode_grpc_frame p ++ encoded ps

-- The header of a frame whose payload fits.
header :
    (p : Str)
    → Fits p
    → (a : ℕ) × (b : ℕ) × (c : ℕ) × (d : ℕ) × (encode_grpc_frame p ≡ 0 ∷ a ∷ b ∷ c ∷ d ∷ p)
      × (from_be_bytes a b c d ≡ length p)
unfolding encode_grpc_frame to_be_bytes from_be_bytes
header p h = (_, _, _, _, refl, omega arith)

-- A frame decodes to the payload that was encoded, whatever follows it.
decode-encode_frame :
    (p rest : Str) → Fits p → decode_grpc_frame (encode_grpc_frame p ++ rest) ≡ ok p
unfolding decode_grpc_frame
decode-encode_frame p rest h =
    let (a, b, c, d, e, n) = header p h in
    rw (e, n, take_all_append p rest) (ground (arith, length-append p rest))

-- A buffer that is the frames of some payloads, which `out` and `r` differ by.
abbrev IsFrames : Str → Str → Str → Type 0
IsFrames bytes out r = (ps : List Str) × All Fits ps × (bytes ≡ encoded ps) × (r ≡ out ++ joined ps)
