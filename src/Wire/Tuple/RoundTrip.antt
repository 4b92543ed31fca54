-- ===== src/Wire/Tuple/RoundTrip.antt =====
use quiche_moq.Common.{All, [], arith, length, ◌*◌, ◌<◌, ◌^◌, ◌∷◌}
use quiche_moq.Octets.{Octets}
use quiche_moq.Octets.Codec.{Codes, repeat, reserve, seq}
use quiche_moq.Octets.Fields.{IsVarint, bytes_codes, varint_codes}
use quiche_moq.Wire.Tuple.{Bytes, Tuple, from_bytes, get_sized, put_sized, to_bytes}

-- The bound is that of `Vec::with_capacity`: 24 * length t < 2 ^ 63.
pub record IsEncodable (t : Tuple) : Type 0 where
  pub fields : All (λ f. IsVarint (length f)) t
  pub count : 24 * length t < 2 ^ 63

module _ ⦃o : Octets⦄ where
  pub sized_codes : (bs : Bytes) → IsVarint (length bs) → Codes (put_sized bs) get_sized bs
  unfolding put_sized get_sized
  sized_codes bs h = seq _ (varint_codes _ h) (bytes_codes bs)

  pub fields_codes :
      (t : Tuple) → All (λ f. IsVarint (length f)) t → All (λ f. Codes (put_sized f) get_sized f) t
  fields_codes [] h = tt
  fields_codes (f ∷ t) (h, hs) = (sized_codes f h, fields_codes t hs)

  -- A tuple is read back from its bytes.
  pub tuple_codes : (t : Tuple) → IsEncodable t → Codes (to_bytes t) from_bytes t
  unfolding to_bytes from_bytes
  tuple_codes t v =
      seq _ (varint_codes (length t) (omega arith))
        (reserve 24 (length t) v.count (repeat put_sized get_sized t (fields_codes t v.fields)))
