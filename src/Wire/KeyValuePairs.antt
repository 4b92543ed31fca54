-- ===== src/Wire/KeyValuePairs.antt =====
-- quiche_moq_wire/src/key_value_pairs.rs: pairs one behind another, sorted from draft 15 on.
pub mod RoundTrip
pub mod Length
use quiche_moq.Common.{List, [], if◌then◌else◌, leb, suc, zero, ℕ, ◌+◌, ◌∷◌}
use quiche_moq.Common.Sorting.{sort_by_key}
use quiche_moq.Octets.{M, Octets, Reader, Writer, pure, ◌>>=◌, ◌>>◌}
use quiche_moq.Wire.Version.{Version, draft_15}
use quiche_moq.Wire.KeyValuePair.{KeyValuePair, KvpCtx}
use quiche_moq.Wire.KeyValuePair

abbrev pub KeyValuePairs : Type 0
KeyValuePairs = List KeyValuePair

-- `let pairs = if version >= DRAFT_15 { sorted } else { self.0 }`
unfoldable pub ordered : Version → KeyValuePairs → KeyValuePairs
ordered version kvps = if leb draft_15 version then sort_by_key (λ p. p.ty) kvps else kvps

abbrev pub context : Version → ℕ → KvpCtx
context version prev_key = record { version = version; previous_key = prev_key }

module _ ⦃o : Octets⦄ (version : Version) where
  unfoldable pub length_from : ℕ → KeyValuePairs → ℕ
  length_from prev_key [] = 0
  length_from prev_key (p ∷ ps) =
      KeyValuePair.byte_length (context version prev_key) p + length_from p.ty ps

  unfoldable pub byte_length : KeyValuePairs → ℕ
  unfolding length_from
  byte_length kvps = length_from 0 (ordered version kvps)

  -- `for _ in 0..count`, with the type of the pair before.
  unfoldable pub read_from : ℕ → ℕ → M Reader KeyValuePairs
  read_from prev_key zero = pure []
  read_from prev_key (suc count) = do
    p ← KeyValuePair.from_bytes (context version prev_key)
    ps ← read_from p.ty count
    pure (p ∷ ps)

  unfoldable pub from_bytes : ℕ → M Reader KeyValuePairs
  unfolding read_from
  from_bytes count = read_from 0 count

  unfoldable pub write_from : ℕ → KeyValuePairs → M Writer (Unit {0})
  write_from prev_key [] = pure tt
  write_from prev_key (p ∷ ps) = do
    KeyValuePair.to_bytes (context version prev_key) p
    write_from p.ty ps

  unfoldable pub to_bytes : KeyValuePairs → M Writer (Unit {0})
  unfolding write_from
  to_bytes kvps = write_from 0 (ordered version kvps)
