-- ===== src/Wire/ReasonPhrase.antt =====
-- quiche_moq_wire/src/reason_phrase.rs: a text by its UTF-8 bytes.
use quiche_moq.Common.{
  Bool, [], false, if◌then◌else◌, leb, length, ltb, suc, true, zero, ℕ, ◌&&◌, ◌==◌, ◌∷◌, ◌≡◌,
}
use quiche_moq.Octets.{M, Octets, Reader, Writer, fails, from_utf8_error, pure, ◌>>=◌}
use quiche_moq.Octets.Codec.{Codes, finish}
use quiche_moq.Octets.Fields.{IsVarint}
use quiche_moq.Wire.Tuple.{Bytes, put_sized, get_sized}
use quiche_moq.Wire.Tuple.RoundTrip.{sized_codes}

-- A Rust `String` is the bytes that `String::from_utf8` accepts. `left` continuation bytes are still
-- to come, the next of them in `lo..=hi` (the table 3-7 of the Unicode standard).
unfoldable pub is_utf8_from : ℕ → ℕ → ℕ → Bytes → Bool
is_utf8_from left lo hi [] = left == 0
is_utf8_from (suc left) lo hi (b ∷ bs) =
    let rest = is_utf8_from left 0x80 0xbf bs in if leb lo b && leb b hi then rest else false
is_utf8_from zero lo hi (b ∷ bs) =
    let one = is_utf8_from 1 0x80 0xbf bs in
    let two_low = is_utf8_from 2 0xa0 0xbf bs in
    let two = is_utf8_from 2 0x80 0xbf bs in
    let two_high = is_utf8_from 2 0x80 0x9f bs in
    let three_low = is_utf8_from 3 0x90 0xbf bs in
    let three = is_utf8_from 3 0x80 0xbf bs in
    let three_high = is_utf8_from 3 0x80 0x8f bs in
    let ascii = is_utf8_from 0 0 0 bs in
    if ltb b 0x80
    then ascii
    else if ltb b 0xc2
    then false
    else if ltb b 0xe0
    then one
    else if b == 0xe0
    then two_low
    else if b == 0xed
    then two_high
    else if ltb b 0xf0
    then two
    else if b == 0xf0
    then three_low
    else if ltb b 0xf4
    then three
    else if b == 0xf4
    then three_high
    else false

unfoldable pub is_utf8 : Bytes → Bool
unfolding is_utf8_from
is_utf8 bs = is_utf8_from 0 0 0 bs

abbrev pub ReasonPhrase : Type 0
ReasonPhrase = Bytes

pub record IsEncodable (r : ReasonPhrase) : Type 0 where
  pub text : is_utf8 r ≡ true
  pub fits : IsVarint (length r)

module _ ⦃o : Octets⦄ where
  unfoldable pub from_utf8 : Bytes → M Reader ReasonPhrase
  unfolding is_utf8
  from_utf8 bs = if is_utf8 bs then pure bs else fails from_utf8_error

  unfoldable pub from_bytes : M Reader ReasonPhrase
  unfolding from_utf8
  from_bytes = do bs ← get_sized; from_utf8 bs

  unfoldable pub to_bytes : ReasonPhrase → M Writer (Unit {0})
  unfolding put_sized
  to_bytes r = put_sized r

  -- A reason phrase that is valid UTF-8 and whose length fits a varint is read back from its bytes;
  -- a proper prefix is answered by buffer_too_short.
  pub reason_phrase_codes : (r : ReasonPhrase) → IsEncodable r → Codes (to_bytes r) from_bytes r
  unfolding to_bytes from_bytes from_utf8
  reason_phrase_codes r v = finish from_utf8 (rw v.text) (sized_codes r v.fits)
