-- ===== src/Wire/Location.antt =====
-- quiche_moq_wire/src/location.rs: a place in a track, ordered by group and then by object.
use Prim.Native.Nat.{compare, Ordering}
use quiche_moq.Octets.{M, Octets, Reader, Writer, emit, pure, ◌>>=◌, ◌>>◌}
use mathlib.Core.Path.{fun_ext}
use quiche_moq.Octets.Growth.{codes-bytes}
use quiche_moq.Octets.Codec.{Codes, emit-append, last, seq}
use quiche_moq.Octets.Fields.{IsVarint, varint_codes}
use quiche_moq.Common.{
  Bool, arith, length, length-append, true, ℕ, ◌&&◌, ◌++◌, ◌<◌, ◌==◌, ◌↔◌, ◌≡◌, ◌≤◌, ◌⊎◌,
}

pub record Location : Type 0 where
  pub group : ℕ
  pub object : ℕ

-- `self.group.cmp(&other.group).then(self.object.cmp(&other.object))`
unfoldable pub then : Ordering → Ordering → Ordering
then Ordering.eq d = d
then Ordering.lt d = Ordering.lt
then Ordering.gt d = Ordering.gt

unfoldable pub cmp : Location → Location → Ordering
unfolding then
cmp a b = then (compare a.group b.group) (compare a.object b.object)

unfoldable pub eq : Location → Location → Bool
eq a b = a.group == b.group && a.object == b.object

-- draft-ietf-moq-transport-16 §1.4.1.
abbrev pub Before : Location → Location → Type 0
Before a b = (a.group < b.group) ⊎ ((a.group ≡ b.group) × (a.object < b.object))

-- For any two locations: cmp is less exactly if the first comes before the second by group and then
-- by object, greater exactly if the second comes before the first, and equal exactly if eq holds;
-- and eq holds exactly for equal locations.
pub cmp_iff :
    (a b : Location)
    → ((cmp a b ≡ Ordering.lt) ↔ Before a b)
      × ((cmp a b ≡ Ordering.gt) ↔ Before b a)
      × ((cmp a b ≡ Ordering.eq) ↔ (eq a b ≡ true))
      × ((eq a b ≡ true) ↔ (a ≡ b))
unfolding cmp eq
cmp_iff a b = ground arith

module _ ⦃o : Octets⦄ where
  open o use {get_varint, put_varint}

  unfoldable pub from_bytes : M Reader Location
  from_bytes = do
    group ← get_varint
    object ← get_varint
    pure (record { group = group; object = object })

  unfoldable pub to_bytes : Location → M Writer (Unit {0})
  to_bytes l = do put_varint l.group; put_varint l.object

  pub codes :
      (l : Location) → IsVarint l.group → IsVarint l.object → Codes (to_bytes l) from_bytes l
  unfolding to_bytes from_bytes
  codes l g b =
      seq _ (varint_codes l.group g)
        (last (λ x. record { group = l.group; object = x }) (varint_codes l.object b))

  pub to_bytes_lem :
      (l : Location) (w : Writer)
      → IsVarint l.group
      → IsVarint l.object
      → to_bytes l w ≡ emit (o.varint l.group ++ o.varint l.object) w
  unfolding to_bytes ◌>>◌
  to_bytes_lem l w g b = rw (
    emit-append (o.varint l.group) (o.varint l.object) w,
    o.put_varint_lem l.group w g,
    fun_ext (λ u. o.put_varint_lem l.object u b),
  )

  -- A location takes at most 16 bytes.
  pub length-codes :
      (l : Location) (g : IsVarint l.group) (b : IsVarint l.object)
      → length (codes l g b).bytes ≤ 16
  length-codes l g b = rw (codes-bytes (codes l g b) _ (λ w. to_bytes_lem l w g b)) (
      omega (
        arith,
        length-append (o.varint l.group) (o.varint l.object),
        o.length-varint l.group g,
        o.length-varint l.object b,
        o.varint_len_bounds l.group g,
        o.varint_len_bounds l.object b,
      ))
