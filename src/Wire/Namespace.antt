-- ===== src/Wire/Namespace.antt =====
-- quiche_moq_wire/src/namespace.rs: the namespace of a track, a tuple of byte strings.
use quiche_moq.Common.{Bool, [], arith, false, length, true, ℕ, ◌↔◌, ◌∷◌, ◌≡◌}
use quiche_moq.Octets.{M, Octets, Reader, Writer}
use quiche_moq.Octets.Codec.{Codes}
use quiche_moq.Wire.Tuple.{Tuple}
use quiche_moq.Wire.Tuple
use quiche_moq.Wire.Tuple.RoundTrip.{IsEncodable}
use quiche_moq.Wire.Tuple.RoundTrip

abbrev pub Namespace : Type 0
Namespace = Tuple

unfoldable pub len : Namespace → ℕ
len n = length n

unfoldable pub is_empty : Namespace → Bool
is_empty [] = true
is_empty (p ∷ ps) = false

pub is_empty_iff : (n : Namespace) → (is_empty n ≡ true) ↔ (len n ≡ 0)
unfolding is_empty len
is_empty_iff [] = ground arith
is_empty_iff (p ∷ ps) = ground arith

module _ ⦃o : Octets⦄ where
  unfoldable pub from_bytes : M Reader Namespace
  from_bytes = Tuple.from_bytes

  unfoldable pub to_bytes : Namespace → M Writer (Unit {0})
  to_bytes n = Tuple.to_bytes n

  pub codes : (n : Namespace) → IsEncodable n → Codes (to_bytes n) from_bytes n
  unfolding from_bytes to_bytes
  codes n v = RoundTrip.tuple_codes n v
