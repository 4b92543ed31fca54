-- ===== src/Wire/Tuple.antt =====
-- quiche_moq_wire/src/tuple.rs: a list of byte strings. `Namespace` (namespace.rs) wraps one.
pub mod RoundTrip
use quiche_moq.Common.{List, length, ℕ}
use quiche_moq.Octets.{M, Octets, Reader, Writer, with_capacity, ◌>>=◌, ◌>>◌}
use quiche_moq.Octets.Codec.{for_each, times}

abbrev pub Bytes : Type 0
Bytes = List ℕ

abbrev pub Tuple : Type 0
Tuple = List Bytes

module _ ⦃o : Octets⦄ where
  open o use {get_varint, get_bytes, put_varint, put_bytes}

  -- A byte string behind its length, as the loop's body and many other places have it.
  unfoldable pub put_sized : Bytes → M Writer (Unit {0})
  put_sized bs = do put_varint (length bs); put_bytes bs

  unfoldable pub get_sized : M Reader Bytes
  get_sized = do len ← get_varint; get_bytes len

  -- A `Vec<u8>` takes 24 bytes.
  unfoldable pub from_bytes : M Reader Tuple
  unfolding get_sized
  from_bytes = do num_fields ← get_varint; with_capacity 24 num_fields; times num_fields get_sized

  unfoldable pub to_bytes : Tuple → M Writer (Unit {0})
  unfolding put_sized
  to_bytes t = do put_varint (length t); for_each put_sized t
