-- ===== src/Octets.antt =====
-- The byte cursors that the wire format is written with: `octets::Octets` and `octets::OctetsMut`.
-- The crate is not part of the repository, so its operations are the fields of a record, and what
-- is relied on of each is a law beside it.
pub mod Codec
pub mod Growth
pub mod Fields
pub mod Cursor
pub mod Rfc9000
use quiche_moq.Common.{
  Bool, ◌-◌, ℕ, ◌+◌, ◌*◌, ◌/◌, ◌%◌, ◌^◌, ◌≤◌, ◌<◌, ◌≡◌, List, [], ◌∷◌, ◌++◌, length, take, drop,
  Cut, leb, if◌then◌else◌,
}

-- quiche_moq_wire's `Error`; the texts and the wrapped errors are dropped.
pub data Error : Type 0 where
  buffer_too_short from_utf8_error protocol_violation : Error

-- A Rust `Result`, and the third outcome of a call: a failed assertion, an `unwrap` of `None`, an
-- `unimplemented!()`.
pub data Result {ℓ} (A : Type ℓ) : Type ℓ where
  ok : A → Result A
  err : Error → Result A
  panic : Result A

-- Code that moves a cursor. What a failed call leaves in the cursor is not kept: the callers drop it.
abbrev pub M : Type 0 → Type 0 → Type 0
M S A = S → Result (A × S)

-- The bytes of an `Octets` that are not read yet.
abbrev pub Reader : Type 0
Reader = List ℕ

-- An `OctetsMut`: the bytes before the cursor, and those from it to the end of the buffer.
pub record Writer : Type 0 where
  pub written : List ℕ
  pub ahead : List ℕ

module _ {S A : Type 0} where
  abbrev pub pure : A → M S A
  pure a s = ok (a, s)

  abbrev pub panics : M S A
  panics s = panic

  abbrev pub fails : Error → M S A
  fails e s = err e

  abbrev pub lift : Result A → M S A
  lift (ok a) s = ok (a, s)
  lift (err e) s = err e
  lift panic s = panic

abbrev pub bind : {A B : Type 0} → Result A → (A → Result B) → Result B
bind (ok a) f = f a
bind (err e) f = err e
bind panic f = panic

infixl 5 ◌>>=◌ ◌>>◌
unfoldable pub ◌>>=◌ : {S A B : Type 0} → M S A → (A → M S B) → M S B
◌>>=◌ m f s = bind (m s) (λ (a, s'). f a s')

unfoldable pub ◌>>◌ : {S B : Type 0} → M S (Unit {0}) → M S B → M S B
◌>>◌ m k s = bind (m s) (λ (a, s'). k s')

-- `assert!(b)`
unfoldable pub assert : {S : Type 0} → Bool → M S (Unit {0})
assert b = if b then pure tt else panics

-- `Vec::with_capacity(n)` for elements of `size` bytes, which panics above `isize::MAX` bytes.
unfoldable pub with_capacity : {S : Type 0} → ℕ → ℕ → M S (Unit {0})
with_capacity size n = assert (leb (size * n) (2 ^ 63 - 1))

-- Writing `bs` at the cursor, over what stands there.
unfoldable pub emit : List ℕ → M Writer (Unit {0})
emit bs w =
    if leb (length bs) (length w.ahead)
    then ok (tt, record { written = w.written ++ bs; ahead = drop (length bs) w.ahead })
    else err buffer_too_short

pub record Octets : Type 0 where
  pub get_varint : M Reader ℕ
  pub get_u8 : M Reader ℕ
  pub get_u16 : M Reader ℕ
  pub get_bytes : ℕ → M Reader (List ℕ)
  pub peek_u8 : Reader → Result ℕ
  pub peek_bytes : ℕ → Reader → Result Reader
  pub put_varint : ℕ → M Writer (Unit {0})
  pub put_varint_with_len : ℕ → ℕ → M Writer (Unit {0})
  pub put_u8 : ℕ → M Writer (Unit {0})
  pub put_u16 : ℕ → M Writer (Unit {0})
  pub put_u32 : ℕ → M Writer (Unit {0})
  pub put_bytes : List ℕ → M Writer (Unit {0})
  pub skip : ℕ → M Writer (Unit {0})
  pub split_at : ℕ → Writer → Result (Writer × Writer)
  pub varint_len : ℕ → ℕ
  pub varint_parse_len : ℕ → ℕ
  -- RFC 9000 §16: the shortest encoding of a number below 2^62, and the encoding in a given length.
  pub varint : ℕ → List ℕ
  pub varint_with_len : ℕ → ℕ → List ℕ
  pub put_varint_lem : (v : ℕ) (w : Writer) → v < 2 ^ 62 → put_varint v w ≡ emit (varint v) w
  pub get_varint_lem : (v : ℕ) (r : Reader) → v < 2 ^ 62 → get_varint (varint v ++ r) ≡ ok (v, r)
  pub get_varint-Cut :
      (v : ℕ) (r : Reader) → v < 2 ^ 62 → Cut r (varint v) → get_varint r ≡ err buffer_too_short
  pub get_varint_shorter : (r s : Reader) (v : ℕ) → get_varint r ≡ ok (v, s) → length s < length r
  pub get_varint_room :
      (r : Reader)
      → 8 ≤ length r
      → (v : ℕ) × (s : Reader) × (get_varint r ≡ ok (v, s)) × (length r ≤ length s + 8)
  pub varint_one : (v : ℕ) → v < 64 → varint v ≡ v ∷ []
  pub length-varint : (v : ℕ) → v < 2 ^ 62 → length (varint v) ≡ varint_len v
  pub varint_len_bounds : (v : ℕ) → v < 2 ^ 62 → (1 ≤ varint_len v) × (varint_len v ≤ 8)
  pub varint_parse_len_lem :
      (v b : ℕ) (t : List ℕ) → v < 2 ^ 62 → varint v ≡ b ∷ t → varint_parse_len b ≡ varint_len v
  pub put_varint_two_lem :
      (v : ℕ) (w : Writer) → v < 2 ^ 14 → put_varint_with_len v 2 w ≡ emit (varint_with_len v 2) w
  pub get_varint_two_lem :
      (v : ℕ) (r : Reader) → v < 2 ^ 14 → get_varint (varint_with_len v 2 ++ r) ≡ ok (v, r)
  pub get_varint_two-Cut :
      (v : ℕ) (r : Reader)
      → v < 2 ^ 14
      → Cut r (varint_with_len v 2)
      → get_varint r ≡ err buffer_too_short
  pub length-varint_two : (v : ℕ) → v < 2 ^ 14 → length (varint_with_len v 2) ≡ 2
  pub put_u8_lem : (b : ℕ) (w : Writer) → put_u8 b w ≡ emit (b ∷ []) w
  pub get_u8_lem : (b : ℕ) (r : Reader) → get_u8 (b ∷ r) ≡ ok (b, r)
  pub get_u8_cut : get_u8 [] ≡ err buffer_too_short
  pub put_u16_lem : (v : ℕ) (w : Writer) → put_u16 v w ≡ emit (v / 256 ∷ v % 256 ∷ []) w
  pub get_u16_lem : (b c : ℕ) (r : Reader) → get_u16 (b ∷ c ∷ r) ≡ ok (b * 256 + c, r)
  pub get_u16_cut : (r : Reader) → length r < 2 → get_u16 r ≡ err buffer_too_short
  pub put_bytes_lem : (bs : List ℕ) (w : Writer) → put_bytes bs w ≡ emit bs w
  pub get_bytes_lem :
      (n : ℕ) (r : Reader)
      → get_bytes n r ≡ (if leb n (length r) then ok (take n r, drop n r) else err buffer_too_short)
  pub peek_u8_lem : (b : ℕ) (r : Reader) → peek_u8 (b ∷ r) ≡ ok b
  pub peek_u8_cut : peek_u8 [] ≡ err buffer_too_short
  pub peek_bytes_lem :
      (n : ℕ) (r : Reader)
      → peek_bytes n r ≡ (if leb n (length r) then ok (take n r) else err buffer_too_short)
  pub skip_lem : (n : ℕ) (w : Writer) → n ≤ length w.ahead → skip n w ≡ emit (take n w.ahead) w
  pub skip_cut : (n : ℕ) (w : Writer) → length w.ahead < n → skip n w ≡ err buffer_too_short
  pub split_at_lem :
      (n : ℕ) (w : Writer)
      → n ≤ length w.written
      → split_at n w
        ≡ ok (
          record { written = []; ahead = take n w.written },
          record { written = []; ahead = drop n w.written ++ w.ahead },
        )
