-- ===== src/Wire/Control/FilterType.antt =====
-- quiche_moq_wire/src/control_message/subscribe.rs: from where on a track is subscribed to.
use quiche_moq.Common.{Bool, arith, false, if◌then◌else◌, refl, true, ℕ, ◌==◌}
use quiche_moq.Octets.{M, Octets, Reader, Writer, panics, pure, ◌>>=◌}
use quiche_moq.Octets.Codec.{Codes, finish}
use quiche_moq.Octets.Fields.{varint_codes}

pub data FilterType : Type 0 where
  largest_object next_group_start absolute_start absolute_range : FilterType

unfoldable pub has_start_location : FilterType → Bool
has_start_location largest_object = false
has_start_location next_group_start = false
has_start_location absolute_start = true
has_start_location absolute_range = true

unfoldable pub has_end_group : FilterType → Bool
has_end_group largest_object = false
has_end_group next_group_start = false
has_end_group absolute_start = false
has_end_group absolute_range = true

-- The filters that `to_bytes` has code for.
abbrev pub IsEncodable : FilterType → Type 0
IsEncodable largest_object = Unit {0}
IsEncodable next_group_start = Unit {0}
IsEncodable absolute_start = ⊥
IsEncodable absolute_range = ⊥

unfoldable pub from_id : {S : Type 0} → ℕ → M S FilterType
from_id ty =
    if ty == 0x1
    then pure next_group_start
    else if ty == 0x2
    then pure largest_object
    else if ty == 0x3
    then pure absolute_start
    else if ty == 0x4
    then pure absolute_range
    else panics

module _ ⦃o : Octets⦄ where
  unfoldable pub to_bytes : FilterType → M Writer (Unit {0})
  to_bytes largest_object = o.put_varint 0x2
  to_bytes next_group_start = o.put_varint 0x1
  to_bytes absolute_start = panics
  to_bytes absolute_range = panics

  unfoldable pub from_bytes : M Reader FilterType
  unfolding from_id
  from_bytes = do ty ← o.get_varint; from_id ty

  pub codes : (f : FilterType) → IsEncodable f → Codes (to_bytes f) from_bytes f
  unfolding to_bytes from_bytes
  codes largest_object h = finish _ (unfold from_id in refl) (varint_codes 0x2 (omega arith))
  codes next_group_start h = finish _ (unfold from_id in refl) (varint_codes 0x1 (omega arith))
  codes absolute_start h = absurd h
  codes absolute_range h = absurd h
