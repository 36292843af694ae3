-- ===== src/Protocols/Codecs.antt =====
-- What the codecs of src/protocols make of what they have encoded.
use iron_babel.Json.{Json}
