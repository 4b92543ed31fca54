-- ===== src/Wire/Object/Loop.antt =====
-- The loop over the extension headers: it ends, and it reads the pairs that fill the length given.
use quiche_moq.Common.{
  ==_iff, Bool-cases, Cut, Cut-append, List, [], append_assoc, arith, inl, inr, leb, length,
  length-append, ltb, ltb→le, ltb→lt, lt→ltb, refl, suc, sym, true, zero, ℕ, ◌%◌, ◌++◌, ◌+◌, ◌-◌,
  ◌<◌, ◌==◌, ◌∷◌, ◌≡◌, ◌≢◌, ◌≤◌,
}
use quiche_moq.Octets.{
  Error, M, Octets, Reader, Result, Writer, bind, buffer_too_short, emit, err, ok, panic, ◌>>=◌,
  ◌>>◌,
}
use quiche_moq.Octets.Codec.{Codes, emit-append, emit-nil}
use quiche_moq.Octets.Growth.{
  Consumes, bind-Consumes, codes-length, get_bytes-Consumes, get_varint-Consumes, pure-Consumes,
}
use mathlib.Core.Path.{fun_ext}
use quiche_moq.Wire.Version.{Version, draft_15}
use quiche_moq.Wire.KeyValuePair.{KeyValuePair, KvpCtx}
use quiche_moq.Wire.KeyValuePair
use quiche_moq.Wire.KeyValuePair.RoundTrip as Pair
use quiche_moq.Wire.KeyValuePairs.{KeyValuePairs, context, write_from}
use quiche_moq.Wire.KeyValuePairs.RoundTrip.{AreEncodable, IsOrdered}
use quiche_moq.Wire.KeyValuePairs.Length.{pair-Grows, byte_length_positive}
use quiche_moq.Wire.Object.{get_extensions, read_extensions}

-- What the loop does with the bytes of some pairs: `k` bytes were read before.
pub record Reads ⦃o : Octets⦄ (version : Version) (prev_key : ℕ) (ps : KeyValuePairs) : Type 0 where
  pub bytes : List ℕ
  pub puts : (w : Writer) → write_from version prev_key ps w ≡ emit bytes w
  pub gets :
      (fuel k : ℕ) (r : Reader)
      → length bytes < fuel
      → read_extensions version fuel
          (k + length (bytes ++ r))
          (k + length bytes)
          prev_key
          (bytes ++ r)
        ≡ ok (ps, r)
  pub cuts :
      (fuel k : ℕ) (r : Reader)
      → length bytes < fuel
      → Cut r bytes
      → read_extensions version fuel (k + length r) (k + length bytes) prev_key r
        ≡ err buffer_too_short

-- A run of the loop of the source, which has no bound on its rounds: `while b.off() < ext_hdr_end`,
-- with `?` on what a pair answers, and the assertion behind it.
pub data Runs ⦃o : Octets⦄ (version : Version) (start len : ℕ)
    : (prev_key : ℕ) → Reader → Result (KeyValuePairs × Reader) → Type 0 where
  stops :
      {prev_key : ℕ} {r : Reader}
      → start - length r ≡ len
      → Runs version start len prev_key r (ok ([], r))
  overruns :
      {prev_key : ℕ} {r : Reader} → len < start - length r → Runs version start len prev_key r panic
  reads :
      {prev_key : ℕ} {r s : Reader} {p : KeyValuePair} {x : Result (KeyValuePairs × Reader)}
      → start - length r < len
      → KeyValuePair.from_bytes (context version prev_key) r ≡ ok (p, s)
      → Runs version start len p.ty s x
      → Runs version start len prev_key r (bind x (λ (ps, u). ok (p ∷ ps, u)))
  fails :
      {prev_key : ℕ} {r : Reader} {e : Error}
      → start - length r < len
      → KeyValuePair.from_bytes (context version prev_key) r ≡ err e
      → Runs version start len prev_key r (err e)
  panics :
      {prev_key : ℕ} {r : Reader}
      → start - length r < len
      → KeyValuePair.from_bytes (context version prev_key) r ≡ panic
      → Runs version start len prev_key r panic

module _ ⦃o : Octets⦄ (version : Version) where
  no_pairs : (prev_key : ℕ) → Reads version prev_key []
  unfolding read_extensions write_from
  no_pairs prev_key = record {
    bytes = [];
    puts = λ w. sym (emit-nil w);
    gets = last;
    cuts = λ fuel k r h c. absurd c;
  }
    where
      last :
          (fuel k : ℕ) (r : Reader)
          → 0 < fuel
          → read_extensions version fuel (k + length r) (k + 0) prev_key r ≡ ok ([], r)
      last zero k r h = absurd (omega arith)
      last (suc fuel) k r h = ground arith

  more_pairs :
      (prev_key : ℕ) (p : KeyValuePair) (ps : KeyValuePairs)
      → Pair.IsEncodable p
      → (draft_15 ≤ version → prev_key ≤ p.ty)
      → Reads version p.ty ps
      → Reads version prev_key (p ∷ ps)
  unfolding read_extensions write_from ◌>>=◌ ◌>>◌
  more_pairs prev_key p ps v le t = record {
    bytes = c.bytes ++ t.bytes;
    puts = λ w. rw (emit-append c.bytes t.bytes w, c.puts, fun_ext t.puts);
    gets = gets;
    cuts = cuts;
  }
    where
      c :
          Codes
            (KeyValuePair.to_bytes (context version prev_key) p)
            (KeyValuePair.from_bytes (context version prev_key))
            p
      c = Pair.codes (context version prev_key) p v le

      some_bytes : 1 ≤ length c.bytes
      some_bytes =
          rw (codes-length _ (pair-Grows (context version prev_key) p v le) c)
            (byte_length_positive (context version prev_key) p v le)

      step :
          (fuel k start len : ℕ) (r : Reader)
          → length t.bytes < fuel
          → start ≡ (k + length c.bytes) + length (t.bytes ++ r)
          → len ≡ (k + length c.bytes) + length t.bytes
          → read_extensions version (suc fuel) start len prev_key (c.bytes ++ (t.bytes ++ r))
            ≡ ok (p ∷ ps, r)
      step fuel k start len r h e n =
          let test : ltb (start - length (c.bytes ++ (t.bytes ++ r))) len ≡ true =
            lt→ltb _ _ (omega (arith, e, n, some_bytes, length-append c.bytes (t.bytes ++ r))) in
          rw (test, c.gets (t.bytes ++ r), e, n, t.gets fuel (k + length c.bytes) r h)

      in_rest :
          (fuel k start len : ℕ) (u : Reader)
          → length t.bytes < fuel
          → Cut u t.bytes
          → start ≡ (k + length c.bytes) + length u
          → len ≡ (k + length c.bytes) + length t.bytes
          → read_extensions version (suc fuel) start len prev_key (c.bytes ++ u)
            ≡ err buffer_too_short
      in_rest fuel k start len u h cut e n =
          let test : ltb (start - length (c.bytes ++ u)) len ≡ true =
            lt→ltb _ _ (omega (arith, e, n, some_bytes, length-append c.bytes u)) in
          rw (test, c.gets u, e, n, t.cuts fuel (k + length c.bytes) u h cut)

      in_first :
          (fuel k start len : ℕ) (r : Reader)
          → Cut r c.bytes
          → start - length r < len
          → read_extensions version (suc fuel) start len prev_key r ≡ err buffer_too_short
      in_first fuel k start len r cut h = rw (lt→ltb _ _ h, c.cuts r cut)

      gets :
          (fuel k : ℕ) (r : Reader)
          → length (c.bytes ++ t.bytes) < fuel
          → read_extensions version fuel
              (k + length ((c.bytes ++ t.bytes) ++ r))
              (k + length (c.bytes ++ t.bytes))
              prev_key
              ((c.bytes ++ t.bytes) ++ r)
            ≡ ok (p ∷ ps, r)
      gets zero k r h = absurd (omega arith)
      gets (suc fuel) k r h = rw (append_assoc c.bytes t.bytes r) (
          step fuel k _ _ r (omega (arith, h, some_bytes, length-append c.bytes t.bytes))
            (omega (arith, length-append c.bytes (t.bytes ++ r)))
            (omega (arith, length-append c.bytes t.bytes)))

      cuts :
          (fuel k : ℕ) (r : Reader)
          → length (c.bytes ++ t.bytes) < fuel
          → Cut r (c.bytes ++ t.bytes)
          → read_extensions version fuel (k + length r) (k + length (c.bytes ++ t.bytes)) prev_key r
            ≡ err buffer_too_short
      cuts zero k r h cut = absurd (omega arith)
      cuts (suc fuel) k r h cut = elim (Cut-append r c.bytes t.bytes cut) [
        | inl part ↦
            in_first fuel k _ _ r part (omega (arith, some_bytes, length-append c.bytes t.bytes))
        | inr (u, e, part) ↦ rw e (
            in_rest fuel k _ _ u (omega (arith, h, some_bytes, length-append c.bytes t.bytes)) part
              (omega (arith, length-append c.bytes u))
              (omega (arith, length-append c.bytes t.bytes)))
      ]

  pub pairs_read :
      (prev_key : ℕ) (ps : KeyValuePairs)
      → AreEncodable ps
      → IsOrdered version prev_key ps
      → Reads version prev_key ps
  pairs_read prev_key [] v s = no_pairs prev_key
  pairs_read prev_key (p ∷ ps) (v, vs) s =
      more_pairs prev_key p ps v (λ h. (s h).0) (pairs_read p.ty ps vs (λ h. (s h).1))

  value-Consumes : (ty : ℕ) → Consumes (KeyValuePair.get_value ty) 0
  unfolding KeyValuePair.get_value
  value-Consumes ty = elim (Bool-cases (ty % 2 == 0)) [
    | inl e ↦ rw e (weaken (bind-Consumes _ _ 1 0 get_varint-Consumes (λ v. pure-Consumes _)))
    | inr e ↦ rw e (
        weaken (
          bind-Consumes _ _ 1 0 get_varint-Consumes
            (λ n. bind-Consumes _ _ 0 0 (get_bytes-Consumes n) (λ b. pure-Consumes _))))
  ]
    where
      weaken : {A : Type 0} {g : M Reader A} → Consumes g 1 → Consumes g 0
      weaken c r s a e = omega (arith, c r s a e)

  -- A pair takes a byte at least.
  pair-Consumes : (ctx : KvpCtx) → Consumes (KeyValuePair.from_bytes ctx) 1
  unfolding KeyValuePair.from_bytes
  pair-Consumes ctx =
      bind-Consumes _ _ 1 0
        (elim (Bool-cases (leb draft_15 ctx.version)) [
          | inl e ↦ rw e (bind-Consumes _ _ 1 0 get_varint-Consumes (λ v. pure-Consumes _))
          | inr e ↦ rw e get_varint-Consumes
        ])
        (λ ty. bind-Consumes _ _ 0 0 (value-Consumes ty) (λ v. pure-Consumes _))

  runs :
      (fuel start len prev_key : ℕ) (r : Reader)
      → length r ≤ start
      → len < fuel + (start - length r)
      → Runs version start len prev_key r (read_extensions version fuel start len prev_key r)
  unfolding read_extensions ◌>>=◌
  runs zero start len prev_key r h l = Runs.overruns (omega (arith, l))
  runs (suc fuel) start len prev_key r h l = elim (Bool-cases (ltb (start - length r) len)) [
    | inl e ↦ rw e (
        round (ltb→lt _ _ e)
          (λ p s k. runs fuel start len p.ty s (omega (arith, h, k)) (omega (arith, h, l, k)))
          (KeyValuePair.from_bytes (context version prev_key) r) refl)
    | inr e ↦ elim (Bool-cases (start - length r == len)) [
      | inl z ↦ rw (e, z) (Runs.stops ((==_iff _ _).0 z))
      | inr z ↦
          let differ : start - length r ≢ len = λ q. cc ((==_iff _ _).1 q, z) in
          rw (e, z) (Runs.overruns (omega (arith, ltb→le _ _ e, differ)))
    ]
  ]
    where
      round :
          start - length r < len
          → ((p : KeyValuePair) (s : Reader)
              → length s < length r
              → Runs version start len p.ty s (read_extensions version fuel start len p.ty s))
          → (x : Result (KeyValuePair × Reader))
          → KeyValuePair.from_bytes (context version prev_key) r ≡ x
          → Runs version start len prev_key r (
              bind {B = KeyValuePairs × Reader} x (λ (kvp, s).
                bind
                  (read_extensions version fuel start len kvp.ty s)
                  (λ (kvps, u). ok (kvp ∷ kvps, u))))
      round more rest (ok (p, s)) e =
          Runs.reads more e
            (rest p s (omega (arith, pair-Consumes (context version prev_key) r s p e)))
      round more rest (err x) e = Runs.fails more e
      round more rest panic e = Runs.panics more e

  -- The loop over the extension headers of an object ends, on any bytes and for any length, also
  -- where a pair cannot be read or the last pair ends behind the length: what get_extensions
  -- returns is the result of a finite run of the loop of the source, by the relation Runs, which
  -- counts no rounds and has no rule for giving up.
  pub get_extensions-Runs :
      (len : ℕ) (r : Reader) → Runs version (length r) len 0 r (get_extensions version len r)
  unfolding get_extensions
  get_extensions-Runs len r = runs (suc len) (length r) len 0 r (omega arith) (omega arith)
