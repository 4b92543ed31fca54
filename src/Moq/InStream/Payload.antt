-- ===== src/Moq/InStream/Payload.antt =====
-- Payload is never read beyond what the header announced.
use quiche_moq.Common.{
  Bool-cases, List, arith, drop, inl, inr, length, length-take, refl, take, ℕ, ◌%◌, ◌++◌, ◌+◌, ◌-◌,
  ◌<◌, ◌==◌, ◌^◌, ◌≡◌, ◌≤◌,
}
use quiche_moq.Common.Outcome.{Outcome, ok, err, panicked}
use quiche_moq.ShortBuf.{chain_read2, min}
use quiche_moq.ShortBuf.Queue.{IsFillAt, IsValid}
use quiche_moq.ShortBuf.Queue.Read.{chain_read2_bounds}
use quiche_moq.Webtransport.{Transport, Error as WtError}
use quiche_moq.Moq.Error.{Error}
use quiche_moq.Moq.InStream.{InStream, after_read, read_obj_pld}

-- The outcomes of `read_obj_pld` on a stream `t`, into `size` bytes.
abbrev pub Received : {S : Type 0} → InStream → ℕ → InStream × S × List ℕ × Outcome Error ℕ → Type 0
Received t size (u, s, buf, ok n) =
    (n ≤ size)
    × (u.remaining_object_payload + n ≡ t.remaining_object_payload)
    × (u.subgroup_header ≡ t.subgroup_header)
    × IsValid u.buf
Received t size (u, s, buf, err e) =
    (u.remaining_object_payload ≡ t.remaining_object_payload)
    × (u.subgroup_header ≡ t.subgroup_header)
    × IsValid u.buf
Received t size (u, s, buf, panicked) =
    (u.remaining_object_payload ≡ t.remaining_object_payload)
    × (u.subgroup_header ≡ t.subgroup_header)
    × IsValid u.buf

subtract : (left n : ℕ) → n ≤ left → left < 2 ^ 64 → (left + 2 ^ 64 - n) % 2 ^ 64 + n ≡ left
subtract left n h l = omega arith

min_le : (m n : ℕ) → (min m n ≤ m) × (min m n ≤ n)
min_le m n = ground arith

module _ {S : Type 0} where
  after_read_facts :
      (t u : InStream) (size : ℕ) (s : S) (buf : List ℕ) (r : Outcome WtError ℕ)
      → u.remaining_object_payload ≡ t.remaining_object_payload
      → u.subgroup_header ≡ t.subgroup_header
      → IsValid u.buf
      → t.remaining_object_payload < 2 ^ 64
      → ((n : ℕ) → r ≡ ok n → n ≤ min size t.remaining_object_payload)
      → Received t size ((after_read u r).0, s, buf, (after_read u r).1)
  unfolding after_read
  after_read_facts t u size s buf (ok n) e h v w f =
      let bounds = min_le size t.remaining_object_payload in
      (
        omega (arith, f n refl, bounds),
        omega (arith, e, subtract t.remaining_object_payload n (omega (arith, f n refl, bounds)) w),
        h,
        v,
      )
  after_read_facts t u size s buf (err WtError.done) e h v w f = (e, h, v)
  after_read_facts t u size s buf (err WtError.missing_session_id) e h v w f = (e, h, v)
  after_read_facts t u size s buf (err WtError.no_stream_state) e h v w f = (e, h, v)
  after_read_facts t u size s buf (err WtError.insufficient_capacity) e h v w f = (e, h, v)
  after_read_facts t u size s buf (err WtError.fin) e h v w f = (e, h, v)
  after_read_facts t u size s buf (err (WtError.stream_reset i)) e h v w f = (e, h, v)
  after_read_facts t u size s buf (err (WtError.invalid_stream_state i)) e h v w f = (e, h, v)
  after_read_facts t u size s buf panicked e h v w f = (e, h, v)

  -- In a state of the transport in which recv_stream of the stream keeps the length of the slice
  -- and reports at most that many bytes, on a stream with a valid buffer and less than 2^64 bytes
  -- of payload left: if read_obj_pld returns n, then n is at most the length of the buffer it is
  -- given, and the payload that is left is less by n, so the subtraction does not wrap round; on an
  -- error or a panic the payload that is left is the same; the header is kept and the buffer stays
  -- valid.
  pub read_obj_pld-Received :
      (wt : Transport S) (buf : List ℕ) (t : InStream) (s : S)
      → IsValid t.buf
      → t.remaining_object_payload < 2 ^ 64
      → IsFillAt (wt.recv_stream t.stream_id t.session_id) s
      → Received t (length buf) (read_obj_pld wt buf t s)
  unfolding read_obj_pld chain_read2
  read_obj_pld-Received wt buf t s v l w = elim (Bool-cases (t.remaining_object_payload == 0)) [
    | inl e ↦ rw e (refl, refl, v)
    | inr e ↦ elim (Bool-cases (length buf == 0)) [
      | inl z ↦ rw (e, z) (refl, refl, v)
      | inr z ↦
          rw (e, z)
            (let len = min (length buf) t.remaining_object_payload in
              let r =
                chain_read2 (wt.recv_stream t.stream_id t.session_id) (take len buf) t.buf s in
              let facts =
                chain_read2_bounds (λ _. wt.recv_stream t.stream_id t.session_id s) (take len buf)
                  t.buf s v w in
              let size = length-take len buf (min_le (length buf) t.remaining_object_payload).0 in
              after_read_facts t (record t { buf = r.0 }) (length buf) r.1 (r.2 ++ drop len buf) r.3
                refl refl facts.0 l (λ n k. omega (arith, facts.1 n k, size)))
    ]
  ]
