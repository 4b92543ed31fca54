-- ===== src/Capsule/RoundTrip.antt =====
-- What `encode` leaves in a buffer is what `decode` reads.
use quiche_moq.Common.{
  Bool-cases, Cut, List, [], arith, drop, inl, inr, leb, leb→le, length, length-append, length-drop,
  refl, suc, take, zero, ℕ, ◌++◌, ◌-◌, ◌<◌, ◌∷◌, ◌≡◌,
}
use quiche_moq.Octets.{M, Octets, Reader, Writer, bind, buffer_too_short, emit, err, ok}
use quiche_moq.Octets.Codec.{Codes, last, seq}
use quiche_moq.Octets.Fields.{IsVarint, bytes_codes, varint_codes}
use quiche_moq.Capsule.{Capsule, decode, encode, get_capsule, put_capsule}

take-Cut : (k : ℕ) (xs ys : List ℕ) → k < length xs → Cut (take k (xs ++ ys)) xs
take-Cut k [] ys h = absurd (omega arith)
take-Cut zero (x ∷ xs) ys h = tt
take-Cut (suc k) (x ∷ xs) ys h = (refl, take-Cut k xs ys (omega arith))

-- A coding that starts at the front of a buffer, with the offsets after it.
module _ {A : Type 0} {p : M Writer (Unit {0})} {g : M Reader A} {a : A} (d : Codes p g a) where
  read_back :
      (buf out : List ℕ) (n k : ℕ)
      → bind {B = List ℕ × ℕ}
          (p (record { written = []; ahead = buf }))
          (λ (u, w). ok (w.written ++ w.ahead, length w.written))
        ≡ ok (out, n)
      → k < n
      → (bind {B = A × ℕ} (g out) (λ (a, r). ok (a, length out - length r)) ≡ ok (a, n))
        × (bind {B = A × ℕ} (g (take k out)) (λ (a, r). ok (a, length (take k out) - length r))
            ≡ err buffer_too_short)
        × (length out ≡ length buf)
  unfolding emit
  read_back buf out n k e h = elim (Bool-cases (leb (length d.bytes) (length buf))) [
    | inl t ↦
        let whole : d.bytes ++ drop (length d.bytes) buf ≡ out = cc (rw (d.puts, t) at e) in
        let size : length d.bytes ≡ n = cc (rw (d.puts, t) at e) in
        let rest = drop (length d.bytes) buf in
        let both = length-append d.bytes rest in
        let room = length-drop (length d.bytes) buf in
        let read : length (d.bytes ++ rest) - length rest ≡ length d.bytes = omega (arith, both) in
        rw (← whole, ← size)
          (
            rw (d.gets rest, read),
            rw (
                d.cuts (take k (d.bytes ++ rest))
                  (take-Cut k d.bytes rest (omega (arith, h, size)))),
            omega (arith, both, room, leb→le _ _ t),
          )
    | inr t ↦ absurd (cc (rw (d.puts, t) at e))
  ]

module _ ⦃o : Octets⦄ where
  capsule_codes :
      (c : Capsule)
      → IsVarint c.ty
      → IsVarint (length c.value)
      → Codes (put_capsule c) get_capsule c
  unfolding put_capsule get_capsule
  capsule_codes c t l =
      seq _ (varint_codes _ t) (seq _ (varint_codes _ l) (last _ (bytes_codes c.value)))

  -- If encode, for a capsule whose type and length fit a varint, leaves a buffer and answers n,
  -- then decode reads the capsule from the buffer and answers n as well, the first k bytes of the
  -- buffer, for k below n, are answered by buffer_too_short, and the buffer has the length it had.
  pub decode-encode :
      (c : Capsule) (buf out : List ℕ) (n k : ℕ)
      → IsVarint c.ty
      → IsVarint (length c.value)
      → encode c buf ≡ ok (out, n)
      → k < n
      → (decode out ≡ ok (c, n))
        × (decode (take k out) ≡ err buffer_too_short)
        × (length out ≡ length buf)
  unfolding encode decode
  decode-encode c buf out n k t l e h = read_back (capsule_codes c t l) buf out n k e h
