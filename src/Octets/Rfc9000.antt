-- ===== src/Octets/Rfc9000.antt =====
-- A byte cursor that meets the laws of `Octets`, over lists. It lets tests run, and shows that what
-- is assumed of the crate can hold.
mod Varint
use quiche_moq.Common.{
  List, [], arith, drop, drop-append_le, if◌then◌else◌, leb, length, length-append, le→leb,
  lt→leb_false, refl, take, take-append_le, ℕ, ◌%◌, ◌*◌, ◌++◌, ◌+◌, ◌/◌, ◌<◌, ◌∷◌, ◌≡◌, ◌≤◌,
}
use quiche_moq.Octets.{M, Octets, Reader, Result, Writer, buffer_too_short, emit, err, ok}
unfoldable pub use Varint.{varint, get_varint, varint_len, varint_parse_len, varint_with_len}
use Varint.{
  get_varint_lem, get_varint-Cut, length-varint, varint_one, get_varint_shorter, get_varint_room,
  varint_len_bounds, varint_parse_len_lem, get_varint_two_lem, get_varint_two-Cut, length_two,
}

unfoldable pub get_u8 : M Reader ℕ
get_u8 [] = err buffer_too_short
get_u8 (b ∷ r) = ok (b, r)

unfoldable pub get_u16 : M Reader ℕ
get_u16 (b ∷ c ∷ r) = ok (b * 256 + c, r)
get_u16 _ = err buffer_too_short

pub get_u16_cut : (r : Reader) → length r < 2 → get_u16 r ≡ err buffer_too_short
unfolding get_u16
get_u16_cut [] h = refl
get_u16_cut (b ∷ []) h = refl
get_u16_cut (b ∷ c ∷ r) h = absurd (omega arith)

unfoldable pub get_bytes : ℕ → M Reader (List ℕ)
get_bytes n r = if leb n (length r) then ok (take n r, drop n r) else err buffer_too_short

unfoldable pub peek_u8 : Reader → Result ℕ
peek_u8 [] = err buffer_too_short
peek_u8 (b ∷ r) = ok b

unfoldable pub peek_bytes : ℕ → Reader → Result Reader
peek_bytes n r = if leb n (length r) then ok (take n r) else err buffer_too_short

unfoldable pub split_at : ℕ → Writer → Result (Writer × Writer)
split_at n w =
    let whole = w.written ++ w.ahead in
    if leb n (length whole)
    then ok (
      record { written = []; ahead = take n whole },
      record { written = []; ahead = drop n whole },
    )
    else err buffer_too_short

pub split_at_lem :
    (n : ℕ) (w : Writer)
    → n ≤ length w.written
    → split_at n w
      ≡ ok (
        record { written = []; ahead = take n w.written },
        record { written = []; ahead = drop n w.written ++ w.ahead },
      )
unfolding split_at
split_at_lem n w h = ground (
  arith,
  length-append w.written w.ahead,
  take-append_le n w.written w.ahead h,
  drop-append_le n w.written w.ahead h,
)

pub get_u8_some : (b : ℕ) (r : Reader) → get_u8 (b ∷ r) ≡ ok (b, r)
unfolding get_u8
get_u8_some b r = refl

pub get_u8_none : get_u8 [] ≡ err buffer_too_short
unfolding get_u8
get_u8_none = refl

pub get_u16_some : (b c : ℕ) (r : Reader) → get_u16 (b ∷ c ∷ r) ≡ ok (b * 256 + c, r)
unfolding get_u16
get_u16_some b c r = refl

pub get_bytes_if :
    (n : ℕ) (r : Reader)
    → get_bytes n r ≡ (if leb n (length r) then ok (take n r, drop n r) else err buffer_too_short)
unfolding get_bytes
get_bytes_if n r = refl

pub peek_u8_some : (b : ℕ) (r : Reader) → peek_u8 (b ∷ r) ≡ ok b
unfolding peek_u8
peek_u8_some b r = refl

pub peek_u8_none : peek_u8 [] ≡ err buffer_too_short
unfolding peek_u8
peek_u8_none = refl

pub peek_bytes_if :
    (n : ℕ) (r : Reader)
    → peek_bytes n r ≡ (if leb n (length r) then ok (take n r) else err buffer_too_short)
unfolding peek_bytes
peek_bytes_if n r = refl

unfoldable pub skip : ℕ → M Writer (Unit {0})
skip n w = if leb n (length w.ahead) then emit (take n w.ahead) w else err buffer_too_short

pub skip_room : (n : ℕ) (w : Writer) → n ≤ length w.ahead → skip n w ≡ emit (take n w.ahead) w
unfolding skip
skip_room n w h = rw (le→leb n (length w.ahead) h)

pub skip_short : (n : ℕ) (w : Writer) → length w.ahead < n → skip n w ≡ err buffer_too_short
unfolding skip
skip_short n w h = rw (lt→leb_false (length w.ahead) n h)

instance abbrev pub rfc9000 : Octets
rfc9000 = record {
  get_varint = get_varint;
  get_u8 = get_u8;
  get_u16 = get_u16;
  get_bytes = get_bytes;
  peek_u8 = peek_u8;
  peek_bytes = peek_bytes;
  put_varint = λ v. emit (varint v);
  put_varint_with_len = λ v n. emit (varint_with_len v n);
  put_u8 = λ b. emit (b ∷ []);
  put_u16 = λ v. emit (v / 256 ∷ v % 256 ∷ []);
  put_u32 = λ v. emit (v / 16777216 % 256 ∷ v / 65536 % 256 ∷ v / 256 % 256 ∷ v % 256 ∷ []);
  put_bytes = emit;
  skip = skip;
  split_at = split_at;
  varint_len = varint_len;
  varint_parse_len = varint_parse_len;
  varint = varint;
  varint_with_len = varint_with_len;
  put_varint_lem = λ v w h. refl;
  get_varint_lem = get_varint_lem;
  get_varint-Cut = get_varint-Cut;
  get_varint_shorter = get_varint_shorter;
  get_varint_room = get_varint_room;
  varint_one = varint_one;
  length-varint = length-varint;
  varint_len_bounds = varint_len_bounds;
  varint_parse_len_lem = varint_parse_len_lem;
  put_varint_two_lem = λ v w h. refl;
  get_varint_two_lem = get_varint_two_lem;
  get_varint_two-Cut = get_varint_two-Cut;
  length-varint_two = λ v h. length_two v;
  put_u8_lem = λ b w. refl;
  get_u8_lem = get_u8_some;
  get_u8_cut = get_u8_none;
  put_u16_lem = λ v w. refl;
  get_u16_lem = get_u16_some;
  get_u16_cut = get_u16_cut;
  put_bytes_lem = λ bs w. refl;
  get_bytes_lem = get_bytes_if;
  peek_u8_lem = peek_u8_some;
  peek_u8_cut = peek_u8_none;
  peek_bytes_lem = peek_bytes_if;
  skip_lem = skip_room;
  skip_cut = skip_short;
  split_at_lem = split_at_lem;
}
