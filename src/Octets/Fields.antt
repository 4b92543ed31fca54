-- ===== src/Octets/Fields.antt =====
-- The fields of messages: numbers, bytes, byte strings, and those that not every version has.
use quiche_moq.Common.{
  Cut-singleton, List, Option, [], ap, arith, drop-append, length, length-Cut, length-append, none,
  some, take-append, ℕ, ◌%◌, ◌/◌, ◌<◌, ◌^◌, ◌∙◌, ◌∷◌,
}
use quiche_moq.Octets.{M, Octets, Reader, Writer, ok, pure, ◌>>=◌}
use quiche_moq.Octets.Codec.{Codes, done, last, put_unwrapped}

abbrev pub IsVarint : ℕ → Type 0
IsVarint v = v < 2 ^ 62

-- Fields that a version of the protocol has or lacks.
abbrev pub HasVarint : Option ℕ → Type 0
HasVarint none = ⊥
HasVarint (some v) = IsVarint v

abbrev pub IsPresent : {A : Type 0} → Option A → Type 0
IsPresent none = ⊥
IsPresent (some a) = Unit {0}

abbrev pub IsAbsent : {A : Type 0} → Option A → Type 0
IsAbsent none = Unit {0}
IsAbsent (some a) = ⊥

abbrev pub Has : {A : Type 0} → (A → Type 0) → Option A → Type 0
Has P none = ⊥
Has P (some a) = P a

pub field_codes :
    {A : Type 0} (p : A → M Writer (Unit {0})) (g : M Reader A) (a : Option A)
    → Has (λ x. Codes (p x) g x) a
    → Codes (put_unwrapped p a) (g >>= λ x. pure (some x)) a
unfolding put_unwrapped
field_codes p g none h = absurd h
field_codes p g (some a) h = last some h

pub absent_codes : {A : Type 0} (a : Option A) → IsAbsent a → Codes (pure tt) (pure none) a
absent_codes none h = done none
absent_codes (some a) h = absurd h

module _ ⦃o : Octets⦄ where
  pub varint_codes : (v : ℕ) → IsVarint v → Codes (o.put_varint v) o.get_varint v
  varint_codes v h = record {
    bytes = o.varint v;
    puts = λ w. o.put_varint_lem v w h;
    gets = λ r. o.get_varint_lem v r h;
    cuts = λ r c. o.get_varint-Cut v r h c;
  }

  pub u8_codes : (b : ℕ) → Codes (o.put_u8 b) o.get_u8 b
  u8_codes b = record {
    bytes = b ∷ [];
    puts = o.put_u8_lem b;
    gets = o.get_u8_lem b;
    cuts = λ r c. rw (Cut-singleton r b c) o.get_u8_cut;
  }

  pub u16_codes : (v : ℕ) → Codes (o.put_u16 v) o.get_u16 v
  u16_codes v = record {
    bytes = v / 256 ∷ v % 256 ∷ [];
    puts = o.put_u16_lem v;
    gets = λ r. o.get_u16_lem _ _ r ∙ ap (λ n. ok (n, r)) (omega arith);
    cuts = λ r c. o.get_u16_cut r (length-Cut r (v / 256 ∷ v % 256 ∷ []) c);
  }

  pub bytes_codes : (bs : List ℕ) → Codes (o.put_bytes bs) (o.get_bytes (length bs)) bs
  bytes_codes bs = record {
    bytes = bs;
    puts = o.put_bytes_lem bs;
    gets = λ r.
        o.get_bytes_lem _ _
        ∙ ground (arith, length-append bs r, take-append bs r, drop-append bs r);
    cuts = λ r c. o.get_bytes_lem _ _ ∙ ground (arith, length-Cut r bs c);
  }

  -- One byte that is read back as a string of length 1.
  pub byte_codes : (b : ℕ) → Codes (o.put_u8 b) (o.get_bytes 1) (b ∷ [])
  unfolding bytes_codes
  byte_codes b = record {
    bytes = b ∷ [];
    puts = o.put_u8_lem b;
    gets = (bytes_codes (b ∷ [])).gets;
    cuts = (bytes_codes (b ∷ [])).cuts;
  }

  pub varint_field :
      (v : Option ℕ)
      → HasVarint v
      → Codes (put_unwrapped o.put_varint v) (o.get_varint >>= λ x. pure (some x)) v
  unfolding put_unwrapped
  varint_field none h = absurd h
  varint_field (some v) h = last some (varint_codes v h)

  pub u8_field :
      (v : Option ℕ)
      → IsPresent v
      → Codes (put_unwrapped o.put_u8 v) (o.get_u8 >>= λ x. pure (some x)) v
  unfolding put_unwrapped
  u8_field none h = absurd h
  u8_field (some v) h = last some (u8_codes v)

  -- A number below 2^14 in two bytes.
  pub varint_two_codes : (v : ℕ) → v < 2 ^ 14 → Codes (o.put_varint_with_len v 2) o.get_varint v
  varint_two_codes v h = record {
    bytes = o.varint_with_len v 2;
    puts = λ w. o.put_varint_two_lem v w h;
    gets = λ r. o.get_varint_two_lem v r h;
    cuts = λ r c. o.get_varint_two-Cut v r h c;
  }
