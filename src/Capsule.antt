-- ===== src/Capsule.antt =====
-- http_capsule/src/lib.rs: a type, a length and a value.
pub mod RoundTrip
mod Tests
use quiche_moq.Common.{List, [], length, ℕ, ◌++◌, ◌-◌}
use quiche_moq.Octets.{M, Octets, Reader, Result, Writer, bind, ok, pure, ◌>>=◌, ◌>>◌}

pub record Capsule : Type 0 where
  pub ty : ℕ
  pub value : List ℕ

unfoldable pub new : ℕ → List ℕ → Capsule
new ty value = record { ty = ty; value = value }

module _ ⦃o : Octets⦄ where
  open o use {get_varint, get_bytes, put_varint, put_bytes}

  unfoldable pub put_capsule : Capsule → M Writer (Unit {0})
  put_capsule c = do put_varint c.ty; put_varint (length c.value); put_bytes c.value

  -- The buffer as it is left, and `o.off()`.
  unfoldable pub encode : Capsule → List ℕ → Result (List ℕ × ℕ)
  unfolding put_capsule
  encode c buf =
      bind (put_capsule c (record { written = []; ahead = buf }))
        (λ (u, w). ok (w.written ++ w.ahead, length w.written))

  unfoldable pub get_capsule : M Reader Capsule
  get_capsule = do
    ty ← get_varint
    length ← get_varint
    value ← get_bytes length
    pure (record { ty = ty; value = value })

  unfoldable pub decode : List ℕ → Result (Capsule × ℕ)
  unfolding get_capsule
  decode buf = bind (get_capsule buf) (λ (c, r). ok (c, length buf - length r))
