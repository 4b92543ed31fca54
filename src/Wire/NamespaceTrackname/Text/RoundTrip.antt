-- ===== src/Wire/NamespaceTrackname/Text/RoundTrip.antt =====
-- Bytes come back from their text form.
use quiche_moq.Common.{
  All, Bool-cases, [], ap, append_assoc, arith, drop, drop-append, false, inl, inr, leb, length,
  length-append, le→leb, ltb, lt→ltb, refl, some, suc, sym, true, ℕ, ◌%◌, ◌++◌, ◌+◌, ◌-◌, ◌/◌, ◌<◌,
  ◌==◌, ◌^◌, ◌∙◌, ◌∷◌, ◌≡◌,
}
use quiche_moq.Common.Outcome.{ok}
use quiche_moq.Wire.Tuple.{Bytes}
use quiche_moq.Wire.NamespaceTrackname.Text.{
  digit, escape_len, from_hex, hex_char, is_plain, is_boundary, slice, unescape, unescape_from,
  utf8, utf8_char, write_escape,
}

abbrev AreAscii : Bytes → Type 0
AreAscii = All (λ c. c < 128)

abbrev pub AreBytes : Bytes → Type 0
AreBytes = All (λ b. b < 256)

is_plain-IsAscii : (b : ℕ) → is_plain b ≡ true → (b < 128) × ((b == 0x2e) ≡ false)
unfolding is_plain
is_plain-IsAscii b e = ground arith

hex_char-digit : (n : ℕ) → n < 16 → digit (hex_char n) ≡ some n
unfolding digit hex_char
hex_char-digit n h = ground arith

hex_char-IsAscii : (n : ℕ) → n < 16 → (hex_char n < 128) × ((hex_char n == 0x2b) ≡ false)
unfolding hex_char
hex_char-IsAscii n h = ground arith

from_hex_lem : (b : ℕ) → b < 256 → from_hex (hex_char (b / 16) ∷ hex_char (b % 16) ∷ []) ≡ some b
unfolding from_hex
from_hex_lem b h =
    rw
      (
        (hex_char-IsAscii (b / 16) (omega arith)).1,
        hex_char-digit (b / 16) (omega arith),
        hex_char-digit (b % 16) (omega arith),
      )
      (ap some (omega arith))

write_escape-AreAscii : (bytes : Bytes) → AreBytes bytes → AreAscii (write_escape bytes)
unfolding write_escape
write_escape-AreAscii [] v = tt
write_escape-AreAscii (b ∷ bytes) v = elim (Bool-cases (is_plain b)) [
  | inl e ↦ rw e ((is_plain-IsAscii b e).0, write_escape-AreAscii bytes v.1)
  | inr e ↦ rw e (
    omega arith,
    (
      (hex_char-IsAscii (b / 16) (omega (arith, v.0))).0,
      ((hex_char-IsAscii (b % 16) (omega arith)).0, write_escape-AreAscii bytes v.1),
    ),
  )
]

utf8-AreAscii : (s : Bytes) → AreAscii s → utf8 s ≡ s
unfolding utf8 utf8_char
utf8-AreAscii [] v = refl
utf8-AreAscii (c ∷ s) v = rw (lt→ltb c 128 v.0, utf8-AreAscii s v.1)

-- escape_len is the number of bytes that write_escape writes, for every sequence of bytes.
pub length-write_escape : (bytes : Bytes) → length (write_escape bytes) ≡ escape_len bytes
unfolding write_escape escape_len
length-write_escape [] = refl
length-write_escape (b ∷ bytes) = elim (Bool-cases (is_plain b)) [
  | inl e ↦ rw e (omega (arith, length-write_escape bytes))
  | inr e ↦ rw e (omega (arith, length-write_escape bytes))
]

is_boundary-AreAscii : (u : Bytes) → AreAscii u → is_boundary u ≡ true
is_boundary-AreAscii [] v = refl
is_boundary-AreAscii (c ∷ u) v = rw (lt→ltb c 128 v.0)

drop_at : (front u s : Bytes) (k : ℕ) → s ≡ front ++ u → k ≡ length front → drop k s ≡ u
drop_at front u s k e n = rw (e, n) (drop-append front u)

slice_lem :
    (front u s : Bytes) (c h l i : ℕ)
    → s ≡ front ++ (c ∷ h ∷ l ∷ u)
    → i ≡ length front
    → AreAscii (h ∷ l ∷ u)
    → slice s (i + 1) (i + 3) ≡ some (h ∷ l ∷ [])
unfolding slice
slice_lem front u s c h l i e n v =
    let one : drop (i + 1) s ≡ h ∷ l ∷ u =
      drop_at (front ++ (c ∷ [])) (h ∷ l ∷ u) s (i + 1) (e ∙ sym (append_assoc front (c ∷ []) _))
        (omega (arith, n, length-append front (c ∷ []))) in
    let three : drop (i + 3) s ≡ u =
      drop_at (front ++ (c ∷ h ∷ l ∷ [])) u s (i + 3)
        (e ∙ sym (append_assoc front (c ∷ h ∷ l ∷ []) u))
        (omega (arith, n, length-append front (c ∷ h ∷ l ∷ []))) in
    let inside : leb (i + 3) (length s) ≡ true =
      le→leb _ _ (omega (arith, ap length e, n, length-append front (c ∷ h ∷ l ∷ u))) in
    let two : i + 3 - (i + 1) ≡ 2 = omega arith in
    rw (inside, one, three, is_boundary-AreAscii u v.1.1, lt→ltb h 128 v.0, two)

two_or_more : (n : ℕ) → ltb (suc (suc n)) 2 ≡ false
two_or_more n = ground arith

unescape_from_lem :
    (front bytes s : Bytes) (i : ℕ)
    → s ≡ front ++ write_escape bytes
    → i ≡ length front
    → AreBytes bytes
    → unescape_from s i 0 (write_escape bytes) ≡ ok bytes
unfolding unescape_from write_escape
unescape_from_lem front [] s i e n v = refl
unescape_from_lem front (b ∷ bytes) s i e n v = elim (Bool-cases (is_plain b)) [
  | inl p ↦ rw p (
      rw
        (
          (is_plain-IsAscii b p).1,
          unescape_from_lem (front ++ (b ∷ [])) bytes s (i + 1)
              (rw p at e ∙ sym (append_assoc front (b ∷ []) _))
              (omega (arith, n, length-append front (b ∷ []))) v.1,
        )
        (ap (λ x. ok (x ∷ bytes)) (let m : b % 2 ^ 8 ≡ b = omega (arith, v.0) in m)))
  | inr p ↦
      let ascii = (hex_char-IsAscii (b / 16) (omega (arith, v.0))).0 in
      let ascii_low = (hex_char-IsAscii (b % 16) (omega arith)).0 in
      let t = write_escape bytes in
      let long : ltb (suc (suc (length t))) 2 ≡ false = two_or_more (length t) in
      let whole : s ≡ front ++ (0x2e ∷ hex_char (b / 16) ∷ hex_char (b % 16) ∷ t) = rw p at e in
      rw p (
        rw (
          long,
          slice_lem front t s 0x2e (hex_char (b / 16)) (hex_char (b % 16)) i whole n
              (ascii, (ascii_low, write_escape-AreAscii bytes v.1)),
          unescape_from_lem (front ++ (0x2e ∷ hex_char (b / 16) ∷ hex_char (b % 16) ∷ [])) bytes s
              (i + 1 + 1 + 1)
              (whole
                ∙ sym (append_assoc front (0x2e ∷ hex_char (b / 16) ∷ hex_char (b % 16) ∷ []) t))
              (omega
                (arith, n, length-append front (0x2e ∷ hex_char (b / 16) ∷ hex_char (b % 16) ∷ [])))
              v.1,
          from_hex_lem b v.0,
        ))
]

-- For every sequence of bytes below 256, unescape reads the bytes back from the text that
-- write_escape writes: it returns ok, neither an error nor a panic of the slice of the text.
pub unescape-write_escape :
    (bytes : Bytes) → AreBytes bytes → unescape (write_escape bytes) ≡ ok bytes
unfolding unescape
unescape-write_escape bytes v =
    unescape_from_lem [] bytes (utf8 (write_escape bytes)) 0
      (utf8-AreAscii (write_escape bytes) (write_escape-AreAscii bytes v)) refl v
