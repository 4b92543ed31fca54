-- ===== src/Octets/Rfc9000/Varint.antt =====
-- RFC 9000 §16: a number below 2^62 in one, two, four or eight bytes, its length in the top two bits.
use quiche_moq.Common.{
  Bool-cases, Cut, Cut-singleton, List, [], arith, if◌then◌else◌, inl, inr, length, length-Cut, ltb,
  refl, ℕ, ◌%◌, ◌*◌, ◌++◌, ◌+◌, ◌/◌, ◌<◌, ◌==◌, ◌^◌, ◌∷◌, ◌≡◌, ◌≤◌,
}
use quiche_moq.Octets.{M, Reader, buffer_too_short, err, ok}

unfoldable pub varint : ℕ → List ℕ
varint v =
    if ltb v 64
    then v ∷ []
    else if ltb v 16384
    then (64 + v / 256) ∷ v % 256 ∷ []
    else if ltb v (2 ^ 30)
    then (128 + v / 2 ^ 24) ∷ v / 2 ^ 16 % 256 ∷ v / 256 % 256 ∷ v % 256 ∷ []
    else (192 + v / 2 ^ 56)
      ∷ v / 2 ^ 48 % 256
      ∷ v / 2 ^ 40 % 256
      ∷ v / 2 ^ 32 % 256
      ∷ v / 2 ^ 24 % 256
      ∷ v / 2 ^ 16 % 256
      ∷ v / 256 % 256
      ∷ v % 256
      ∷ []

read_one : M Reader ℕ
read_one (a ∷ r) = ok (a, r)
read_one _ = err buffer_too_short

read_two : M Reader ℕ
read_two (a ∷ b ∷ r) = ok (a % 64 * 256 + b, r)
read_two _ = err buffer_too_short

read_four : M Reader ℕ
read_four (a ∷ b ∷ c ∷ d ∷ r) = ok (((a % 64 * 256 + b) * 256 + c) * 256 + d, r)
read_four _ = err buffer_too_short

read_eight : M Reader ℕ
read_eight (a ∷ b ∷ c ∷ d ∷ e ∷ f ∷ g ∷ h ∷ r) =
    ok (((((((a % 64 * 256 + b) * 256 + c) * 256 + d) * 256 + e) * 256 + f) * 256 + g) * 256 + h, r)
read_eight _ = err buffer_too_short

unfoldable pub get_varint : M Reader ℕ
unfolding read_one read_two read_four read_eight
get_varint [] = err buffer_too_short
get_varint (a ∷ r) =
    if ltb a 64
    then read_one (a ∷ r)
    else if ltb a 128
    then read_two (a ∷ r)
    else if ltb a 192
    then read_four (a ∷ r)
    else read_eight (a ∷ r)

pub get_varint_lem : (v : ℕ) (r : Reader) → v < 2 ^ 62 → get_varint (varint v ++ r) ≡ ok (v, r)
unfolding varint get_varint
get_varint_lem v r h = ground arith

Cut-two :
    (r : Reader) (a b : ℕ)
    → 64 ≤ a
    → a < 128
    → Cut r (a ∷ b ∷ [])
    → get_varint r ≡ err buffer_too_short
unfolding get_varint
Cut-two [] a b l u c = refl
Cut-two (x ∷ []) a b l u c = ground arith
Cut-two (x ∷ y ∷ []) a b l u c = absurd c.1.1
Cut-two (x ∷ y ∷ z ∷ r) a b l u c = absurd c.1.1

Cut-short :
    (r : Reader) (a : ℕ) (t : List ℕ)
    → 128 ≤ a
    → Cut r (a ∷ t)
    → length t ≡ (if ltb a 192 then 3 else 7)
    → get_varint r ≡ err buffer_too_short
unfolding get_varint
Cut-short [] a t l c e = refl
Cut-short (x ∷ []) a t l c e = ground arith
Cut-short (x ∷ y ∷ []) a t l c e = ground arith
Cut-short (x ∷ y ∷ z ∷ []) a t l c e = ground arith
Cut-short (x ∷ y ∷ z ∷ u ∷ []) a t l c e = ground (arith, length-Cut (y ∷ z ∷ u ∷ []) t c.1)
Cut-short (x ∷ y ∷ z ∷ u ∷ v ∷ []) a t l c e = ground (arith, length-Cut (y ∷ z ∷ u ∷ v ∷ []) t c.1)
Cut-short (x ∷ y ∷ z ∷ u ∷ v ∷ w ∷ []) a t l c e =
    ground (arith, length-Cut (y ∷ z ∷ u ∷ v ∷ w ∷ []) t c.1)
Cut-short (x ∷ y ∷ z ∷ u ∷ v ∷ w ∷ s ∷ []) a t l c e =
    ground (arith, length-Cut (y ∷ z ∷ u ∷ v ∷ w ∷ s ∷ []) t c.1)
Cut-short (x ∷ y ∷ z ∷ u ∷ v ∷ w ∷ s ∷ q ∷ r) a t l c e =
    ground (arith, length-Cut (y ∷ z ∷ u ∷ v ∷ w ∷ s ∷ q ∷ r) t c.1)

pub get_varint-Cut :
    (v : ℕ) (r : Reader) → v < 2 ^ 62 → Cut r (varint v) → get_varint r ≡ err buffer_too_short
unfolding varint
get_varint-Cut v r h c = elim (Bool-cases (ltb v 64)) [
  | inl e ↦ rw (Cut-singleton r v (rw e at c)) (unfold get_varint in refl)
  | inr e ↦ elim (Bool-cases (ltb v 16384)) [
    | inl e' ↦ Cut-two r _ _ (omega arith) (ground arith) (rw (e, e') at c)
    | inr e' ↦ elim (Bool-cases (ltb v (2 ^ 30))) [
      | inl e'' ↦
          Cut-short r _ (v / 2 ^ 16 % 256 ∷ v / 256 % 256 ∷ v % 256 ∷ []) (omega arith)
            (rw (e, e', e'') at c) (ground arith)
      | inr e'' ↦
          Cut-short r _
            (v / 2 ^ 48 % 256
              ∷ v / 2 ^ 40 % 256
              ∷ v / 2 ^ 32 % 256
              ∷ v / 2 ^ 24 % 256
              ∷ v / 2 ^ 16 % 256
              ∷ v / 256 % 256
              ∷ v % 256
              ∷ [])
            (omega arith) (rw (e, e', e'') at c) (ground arith)
    ]
  ]
]

unfoldable pub varint_len : ℕ → ℕ
varint_len v = if ltb v 64 then 1 else if ltb v 16384 then 2 else if ltb v (2 ^ 30) then 4 else 8

unfoldable pub varint_parse_len : ℕ → ℕ
varint_parse_len b = if ltb b 64 then 1 else if ltb b 128 then 2 else if ltb b 192 then 4 else 8

short_two : (r s : Reader) (v : ℕ) → read_two r ≡ ok (v, s) → length s < length r
unfolding read_two
short_two [] s v e = cc e
short_two (a ∷ []) s v e = cc e
short_two (a ∷ b ∷ r) s v e = ground arith

short_four : (r s : Reader) (v : ℕ) → read_four r ≡ ok (v, s) → length s < length r
unfolding read_four
short_four [] s v e = cc e
short_four (a ∷ []) s v e = cc e
short_four (a ∷ b ∷ []) s v e = cc e
short_four (a ∷ b ∷ c ∷ []) s v e = cc e
short_four (a ∷ b ∷ c ∷ d ∷ r) s v e = ground arith

short_eight : (r s : Reader) (v : ℕ) → read_eight r ≡ ok (v, s) → length s < length r
unfolding read_eight
short_eight [] s v e = cc e
short_eight (a ∷ []) s v e = cc e
short_eight (a ∷ b ∷ []) s v e = cc e
short_eight (a ∷ b ∷ c ∷ []) s v e = cc e
short_eight (a ∷ b ∷ c ∷ d ∷ []) s v e = cc e
short_eight (a ∷ b ∷ c ∷ d ∷ e ∷ []) s v q = cc q
short_eight (a ∷ b ∷ c ∷ d ∷ e ∷ f ∷ []) s v q = cc q
short_eight (a ∷ b ∷ c ∷ d ∷ e ∷ f ∷ g ∷ []) s v q = cc q
short_eight (a ∷ b ∷ c ∷ d ∷ e ∷ f ∷ g ∷ h ∷ r) s v q = ground arith

pub get_varint_shorter : (r s : Reader) (v : ℕ) → get_varint r ≡ ok (v, s) → length s < length r
unfolding get_varint read_one
get_varint_shorter [] s v e = cc e
get_varint_shorter (a ∷ r) s v e = elim (Bool-cases (ltb a 64)) [
  | inl h ↦ ground arith
  | inr h ↦ elim (Bool-cases (ltb a 128)) [
    | inl k ↦ short_two (a ∷ r) s v (rw (h, k) at e)
    | inr k ↦ elim (Bool-cases (ltb a 192)) [
      | inl l ↦ short_four (a ∷ r) s v (rw (h, k, l) at e)
      | inr l ↦ short_eight (a ∷ r) s v (rw (h, k, l) at e)
    ]
  ]
]

pub varint_one : (v : ℕ) → v < 64 → varint v ≡ v ∷ []
unfolding varint
varint_one v h = ground arith

pub length-varint : (v : ℕ) → v < 2 ^ 62 → length (varint v) ≡ varint_len v
unfolding varint varint_len
length-varint v h = ground arith

pub varint_len_bounds : (v : ℕ) → v < 2 ^ 62 → (1 ≤ varint_len v) × (varint_len v ≤ 8)
unfolding varint_len
varint_len_bounds v h = ground arith

pub varint_parse_len_lem :
    (v b : ℕ) (t : List ℕ) → v < 2 ^ 62 → varint v ≡ b ∷ t → varint_parse_len b ≡ varint_len v
unfolding varint varint_len varint_parse_len
varint_parse_len_lem v b t h e = ground arith

-- Only one-byte and two-byte fields are written in a length of the caller's choice.
unfoldable pub varint_with_len : ℕ → ℕ → List ℕ
varint_with_len v n = if n == 2 then (64 + v / 256) ∷ v % 256 ∷ [] else varint v

pub get_varint_two_lem :
    (v : ℕ) (r : Reader) → v < 2 ^ 14 → get_varint (varint_with_len v 2 ++ r) ≡ ok (v, r)
unfolding varint_with_len get_varint
get_varint_two_lem v r h = ground arith

pub get_varint_two-Cut :
    (v : ℕ) (r : Reader)
    → v < 2 ^ 14
    → Cut r (varint_with_len v 2)
    → get_varint r ≡ err buffer_too_short
unfolding varint_with_len
get_varint_two-Cut v r h c = Cut-two r _ _ (omega arith) (omega arith) c

pub length_two : (v : ℕ) → length (varint_with_len v 2) ≡ 2
unfolding varint_with_len
length_two v = refl

eight_or_more :
    (a : ℕ) (r : Reader)
    → 7 ≤ length r
    → (v : ℕ) × (s : Reader) × (read_eight (a ∷ r) ≡ ok (v, s)) × (1 + length r ≤ length s + 8)
unfolding read_eight
eight_or_more a (b ∷ c ∷ d ∷ e ∷ f ∷ g ∷ h ∷ r) l = (_, r, refl, omega arith)
eight_or_more a _ l = absurd (omega arith)

-- Eight bytes are enough for any number, and no more are read.
pub get_varint_room :
    (r : Reader)
    → 8 ≤ length r
    → (v : ℕ) × (s : Reader) × (get_varint r ≡ ok (v, s)) × (length r ≤ length s + 8)
unfolding get_varint
get_varint_room (a ∷ b ∷ c ∷ d ∷ r) l = elim (Bool-cases (ltb a 64)) [
  | inl e ↦ rw e (a, b ∷ c ∷ d ∷ r, refl, omega arith)
  | inr e ↦ elim (Bool-cases (ltb a 128)) [
    | inl f ↦ rw (e, f) (_, c ∷ d ∷ r, refl, omega arith)
    | inr f ↦ elim (Bool-cases (ltb a 192)) [
      | inl g ↦ rw (e, f, g) (_, r, refl, omega arith)
      | inr g ↦
          let (v, s, q, k) = eight_or_more a (b ∷ c ∷ d ∷ r) (omega (arith, l)) in
          rw (e, f, g) (v, s, q, omega (arith, k))
    ]
  ]
]
get_varint_room _ l = absurd (omega arith)
