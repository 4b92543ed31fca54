-- ===== src/Wire/NamespaceTrackname/Text.antt =====
-- quiche_moq_wire/src/namespace_trackname.rs: the text form of bytes, letters, digits and `_` as
-- they are and `.` with two hex digits for the others.
pub mod RoundTrip
use quiche_moq.Common.{
  Bool, List, Option, [], drop, if◌then◌else◌, leb, length, ltb, none, some, suc, take, true, zero,
  ℕ, ◌%◌, ◌&&◌, ◌*◌, ◌++◌, ◌+◌, ◌-◌, ◌/◌, ◌==◌, ◌^◌, ◌||◌, ◌∷◌,
}
use quiche_moq.Common.Outcome.{Outcome, ok, err, panicked}
use quiche_moq.Wire.Tuple.{Bytes}

unfoldable pub is_plain : ℕ → Bool
is_plain b =
    (leb 0x61 b && leb b 0x7a)
    || (leb 0x41 b && leb b 0x5a)
    || (leb 0x30 b && leb b 0x39)
    || (b == 0x5f)

-- `HEX_CHARS[n]`
unfoldable pub hex_char : ℕ → ℕ
hex_char n = if ltb n 10 then 0x30 + n else 0x57 + n

unfoldable pub write_escape : Bytes → Bytes
unfolding is_plain hex_char
write_escape [] = []
write_escape (b ∷ bytes) =
    let rest = write_escape bytes in
    if is_plain b then b ∷ rest else 0x2e ∷ hex_char (b / 16) ∷ hex_char (b % 16) ∷ rest

unfoldable pub escape_len : Bytes → ℕ
unfolding is_plain
escape_len [] = 0
escape_len (b ∷ bytes) = (if is_plain b then 1 else 3) + escape_len bytes

-- The bytes of a character of a `str`.
unfoldable pub utf8_char : ℕ → Bytes
utf8_char c =
    if ltb c 0x80
    then c ∷ []
    else if ltb c 0x800
    then (0xc0 + c / 0x40) ∷ (0x80 + c % 0x40) ∷ []
    else if ltb c 0x10000
    then (0xe0 + c / 0x1000) ∷ (0x80 + c / 0x40 % 0x40) ∷ (0x80 + c % 0x40) ∷ []
    else (0xf0 + c / 0x40000)
      ∷ (0x80 + c / 0x1000 % 0x40)
      ∷ (0x80 + c / 0x40 % 0x40)
      ∷ (0x80 + c % 0x40)
      ∷ []

unfoldable pub utf8 : List ℕ → Bytes
unfolding utf8_char
utf8 [] = []
utf8 (c ∷ cs) = utf8_char c ++ utf8 cs

-- `&s[from..to]` on the bytes of a `str` panics inside a character and out of range.
abbrev pub is_boundary : Bytes → Bool
is_boundary [] = true
is_boundary (b ∷ bs) = ltb b 0x80 || leb 0xc0 b

unfoldable pub slice : Bytes → ℕ → ℕ → Option Bytes
slice s from to =
    if leb to (length s) && (is_boundary (drop from s) && is_boundary (drop to s))
    then some (take (to - from) (drop from s))
    else none

unfoldable pub digit : ℕ → Option ℕ
digit c =
    if leb 0x30 c && leb c 0x39
    then some (c - 0x30)
    else if leb 0x61 c && leb c 0x66
    then some (c - 0x57)
    else if leb 0x41 c && leb c 0x46
    then some (c - 0x37)
    else none

abbrev pub two_digits : Option ℕ → Option ℕ → Option ℕ
two_digits (some h) (some l) = some (h * 16 + l)
two_digits _ _ = none

-- `u8::from_str_radix(hex_str, 16)` on two bytes: a plus sign is allowed in front.
unfoldable pub from_hex : Bytes → Option ℕ
unfolding digit
from_hex (h ∷ l ∷ []) = if h == 0x2b then digit l else two_digits (digit h) (digit l)
from_hex _ = none

pub data UnescapeError : Type 0 where
  truncated invalid : UnescapeError

abbrev pub push : ℕ → Outcome UnescapeError Bytes → Outcome UnescapeError Bytes
push b (ok bs) = ok (b ∷ bs)
push b (err e) = err e
push b panicked = panicked

abbrev pub push_hex : Option ℕ → Outcome UnescapeError Bytes → Outcome UnescapeError Bytes
push_hex none rest = err invalid
push_hex (some b) rest = push b rest

abbrev pub push_slice : Option Bytes → Outcome UnescapeError Bytes → Outcome UnescapeError Bytes
push_slice none rest = panicked
push_slice (some hex_str) rest = push_hex (from_hex hex_str) rest

-- The loop from `chars[i]` on; `skip` characters belong to a sequence that was read.
unfoldable pub unescape_from : Bytes → ℕ → ℕ → List ℕ → Outcome UnescapeError Bytes
unfolding slice from_hex
unescape_from s i skip [] = ok []
unescape_from s i (suc skip) (c ∷ chars) = unescape_from s (i + 1) skip chars
unescape_from s i zero (c ∷ chars) =
    let rest = unescape_from s (i + 1) (if c == 0x2e then 2 else 0) chars in
    if c == 0x2e
    then (if ltb (length chars) 2 then err truncated else push_slice (slice s (i + 1) (i + 3)) rest)
    else push (c % 2 ^ 8) rest

unfoldable pub unescape : List ℕ → Outcome UnescapeError Bytes
unfolding unescape_from utf8
unescape chars = unescape_from (utf8 chars) 0 0 chars
