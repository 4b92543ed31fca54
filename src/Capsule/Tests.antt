-- ===== src/Capsule/Tests.antt =====
-- A capsule of two bytes in a buffer of six, over the cursor of Octets.Rfc9000.
use quiche_moq.Common.{List, [], arith, length, refl, take, ℕ, ◌∷◌, ◌≡◌}
use quiche_moq.Octets.{buffer_too_short, emit, err, ok, ◌>>=◌, ◌>>◌}
use quiche_moq.Octets.Rfc9000.{rfc9000, varint}
use quiche_moq.Capsule.{Capsule, decode, encode, put_capsule}
use quiche_moq.Capsule.RoundTrip.{decode-encode}

abbrev capsule : Capsule
capsule = record { ty = 0x2843; value = 7 ∷ 8 ∷ [] }

abbrev buf : List ℕ
buf = 0 ∷ 0 ∷ 0 ∷ 0 ∷ 0 ∷ 0 ∷ []

abbrev out : List ℕ
out = 0x68 ∷ 0x43 ∷ 2 ∷ 7 ∷ 8 ∷ 0 ∷ []

encoded : encode capsule buf ≡ ok (out, 5)
unfolding encode put_capsule varint emit ◌>>=◌ ◌>>◌
encoded = refl

decode-encode_example :
    (decode out ≡ ok (capsule, 5))
    × (decode (take 4 out) ≡ err buffer_too_short)
    × (length out ≡ length buf)
decode-encode_example =
    decode-encode capsule buf out 5 4 (omega arith) (omega arith) encoded (omega arith)
