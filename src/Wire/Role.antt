-- ===== src/Wire/Role.antt =====
-- quiche_moq_wire/src/role.rs, which only draft 7 has.
use quiche_moq.Common.{==_iff, [], arith, if◌then◌else◌, refl, true, ℕ, ◌<◌, ◌==◌, ◌∷◌, ◌≡◌}
use quiche_moq.Octets.{
  M, Octets, Reader, Result, Writer, assert, err, lift, ok, protocol_violation, ◌>>=◌, ◌>>◌,
}
use quiche_moq.Octets.Codec.{Codes, finish, read_assert, write_assert}
use quiche_moq.Octets.Fields.{IsVarint, varint_codes}
use quiche_moq.Wire.Version.{Version, draft_07}

pub data Role : Type 0 where
  publisher subscriber pub_sub : Role

unfoldable pub from_id : ℕ → Result Role
from_id v =
    if v == 1
    then ok publisher
    else if v == 2
    then ok subscriber
    else if v == 3
    then ok pub_sub
    else err protocol_violation

unfoldable pub to_id : Role → ℕ
to_id publisher = 1
to_id subscriber = 2
to_id pub_sub = 3

pub from_id-to_id : (r : Role) → from_id (to_id r) ≡ ok r
unfolding from_id to_id
from_id-to_id publisher = refl
from_id-to_id subscriber = refl
from_id-to_id pub_sub = refl

module _ ⦃o : Octets⦄ (version : Version) where
  open o use {get_varint, put_varint}

  unfoldable pub from_bytes : M Reader Role
  unfolding from_id
  from_bytes = do assert (version == draft_07); v ← get_varint; lift (from_id v)

  unfoldable pub to_bytes : Role → M Writer (Unit {0})
  unfolding to_id
  to_bytes r = do assert (version == draft_07); put_varint (to_id r)

  -- A role is read back in draft 7, the only version that has roles.
  pub codes : (r : Role) → version ≡ draft_07 → Codes (to_bytes r) from_bytes r
  unfolding to_bytes from_bytes
  codes r e = write_assert _ same (read_assert _ same known)
    where
      same : (version == draft_07) ≡ true
      same = (==_iff version draft_07).1 e

      id_bound : (r : Role) → IsVarint (to_id r)
      id_bound publisher = omega arith
      id_bound subscriber = omega arith
      id_bound pub_sub = omega arith

      known : Codes (put_varint (to_id r)) (get_varint >>= λ v. lift (from_id v)) r
      known = finish _ (rw (from_id-to_id r)) (varint_codes (to_id r) (id_bound r))

  -- A role is one byte.
  pub from_bytes_one : (r : Role) → version ≡ draft_07 → from_bytes (to_id r ∷ []) ≡ ok (r, [])
  unfolding from_bytes ◌>>=◌ ◌>>◌ assert
  from_bytes_one r e = rw ((==_iff version draft_07).1 e, one, from_id-to_id r)
    where
      small : (r : Role) → to_id r < 64
      small publisher = unfold to_id in omega arith
      small subscriber = unfold to_id in omega arith
      small pub_sub = unfold to_id in omega arith

      one : get_varint (to_id r ∷ []) ≡ ok (to_id r, [])
      one =
          rw (o.varint_one (to_id r) (small r)) at
            (o.get_varint_lem (to_id r) [] (omega (arith, small r)))
