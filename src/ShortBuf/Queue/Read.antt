-- ===== src/ShortBuf/Queue/Read.antt =====
-- What is read comes off the front.
use quiche_moq.Common.{
  ==_iff, Bool-cases, List, [], ap, arith, drop, drop-append, drop-drop, inl, inr, leb, length,
  length-append, length-drop, length-take, refl, some, sym, take, take-append, take_split, true, ℕ,
  ◌++◌, ◌+◌, ◌-◌, ◌==◌, ◌∙◌, ◌≡◌, ◌≢◌, ◌≤◌,
}
use quiche_moq.Common.Outcome.{ok}
use quiche_moq.ShortBuf.{Callback, ShortBuf, buffer, chain_read2, consume, is_empty, len, min, read}
use quiche_moq.ShortBuf.Queue.{Answers, IsFill, IsValid, length-buffer}

-- `n` bytes at the front of the queue are copied to the front of `dst`.
module _ (b : ShortBuf) (dst : List ℕ) (n : ℕ) (v : IsValid b) (h : n ≤ b.end - b.offset) where
  abbrev copied : List ℕ
  copied = take n (drop b.offset b.buf)

  length-copied : length copied ≡ n
  length-copied =
      length-take n (drop b.offset b.buf)
        (omega (arith, h, v.inside, v.ordered, length-drop b.offset b.buf))

  take-copied : take n (copied ++ drop n dst) ≡ copied
  take-copied =
      ap (λ k. take k (copied ++ drop n dst)) (sym length-copied) ∙ take-append copied (drop n dst)

  drop-copied : drop n (copied ++ drop n dst) ≡ drop n dst
  drop-copied =
      ap (λ k. drop k (copied ++ drop n dst)) (sym length-copied) ∙ drop-append copied (drop n dst)

  buffer-copied :
      buffer b ≡ take n (copied ++ drop n dst) ++ buffer (record b { offset = b.offset + n })
  unfolding buffer
  buffer-copied =
      ap (λ k. take k (drop b.offset b.buf)) (parts (b.end - b.offset) h)
      ∙ take_split n (b.end - b.offset - n) (drop b.offset b.buf)
      ∙ (λ i. sym take-copied i ++ take (left i) (drop-drop b.offset n b.buf i))
    where
      parts : (m : ℕ) → n ≤ m → m ≡ n + (m - n)
      parts m k = omega (arith, k)

      left : b.end - b.offset - n ≡ b.end - (b.offset + n)
      left = omega (arith, h, v.ordered)

min_bounds : (m n : ℕ) → (min m n ≤ m) × (min m n ≤ n)
min_bounds m n = ground arith

min_comm : (m n : ℕ) → min m n ≡ min n m
min_comm m n = ground arith

-- For a buffer with offset at most end and end inside the array, read copies the front of the
-- queue, as many bytes as the queue and dst both have, to the front of dst, whose other bytes stay;
-- the queue is the copied bytes followed by what is left, and offset and end stay in order.
pub read_queue :
    (dst : List ℕ) (b : ShortBuf)
    → IsValid b
    → IsValid (read dst b).0
      × ((read dst b).2 ≡ min (len b) (length dst))
      × (buffer b ≡ take (read dst b).2 (read dst b).1 ++ buffer (read dst b).0)
      × (drop (read dst b).2 (read dst b).1 ≡ drop (read dst b).2 dst)
unfolding read len
read_queue dst b v =
    let bounds = min_bounds (b.end - b.offset) (length dst) in
    (
      record { ordered = omega (arith, bounds, v.ordered); inside = v.inside },
      refl,
      buffer-copied b dst (min (b.end - b.offset) (length dst)) v bounds.0,
      drop-copied b dst (min (b.end - b.offset) (length dst)) v bounds.0,
    )

module _ {S E : Type 0} (func : Callback S E) (dst : List ℕ) (b : ShortBuf) (s : S) where
  -- Without bytes in the queue the callback writes to `dst` itself.
  pub chain_read2_empty :
      len b ≡ 0 → chain_read2 func dst b s ≡ (b, (func s dst).0, (func s dst).1, (func s dst).2)
  unfolding chain_read2 is_empty
  chain_read2_empty e = rw (e)

  -- Otherwise it is not called.
  pub chain_read2_buffered :
      len b ≢ 0 → chain_read2 func dst b s ≡ ((read dst b).0, s, (read dst b).1, ok (read dst b).2)
  unfolding chain_read2 read is_empty
  chain_read2_buffered n = elim (Bool-cases (len b == 0)) [
    | inl e ↦ absurd (n ((==_iff (len b) 0).0 e))
    | inr e ↦ rw (e, min_comm (length dst) (len b))
  ]

  -- Either way the buffer stays in order, and no more bytes are reported than `dst` has.
  pub chain_read2_bounds :
      IsValid b
      → IsFill func
      → IsValid (chain_read2 func dst b s).0
        × ((n : ℕ) → (chain_read2 func dst b s).3 ≡ ok n → n ≤ length dst)
  chain_read2_bounds v w = elim (Bool-cases (len b == 0)) [
    | inl e ↦ rw (chain_read2_empty ((==_iff (len b) 0).0 e)) (v, w.fits s dst)
    | inr e ↦ rw (chain_read2_buffered (λ z. cc ((==_iff (len b) 0).1 z, e))) (
      (read_queue dst b v).0,
      λ n k.
          let same : (read dst b).2 ≡ n = cc k in
          omega (arith, same, (read_queue dst b v).1, (min_bounds (len b) (length dst)).1),
    )
  ]

length-read : (dst : List ℕ) (b : ShortBuf) → IsValid b → length (read dst b).1 ≡ length dst
unfolding read
length-read dst b v =
    let n = min (b.end - b.offset) (length dst) in
    let bounds = min_bounds (b.end - b.offset) (length dst) in
    omega (
      arith,
      length-append (take n (drop b.offset b.buf)) (drop n dst),
      length-copied b dst n v bounds.0,
      length-drop n dst,
      bounds,
    )

some_of_both : (m n : ℕ) → m ≢ 0 → 1 ≤ n → 1 ≤ min m n
some_of_both m n h k = ground (arith, h, k)

-- What the callback promises is promised of the two together.
pub chain_read2-Answers :
    {S E : Type 0} (func : Callback S E) (left : S → ℕ) (dst : List ℕ) (b : ShortBuf) (s : S)
    → IsValid b
    → Answers left s dst (func s dst)
    → IsValid (chain_read2 func dst b s).0
      × Answers left s dst
          ((chain_read2 func dst b s).1, (chain_read2 func dst b s).2, (chain_read2 func dst b s).3)
chain_read2-Answers func left dst b s v a = elim (Bool-cases (len b == 0)) [
  | inl e ↦ rw (chain_read2_empty func dst b s ((==_iff (len b) 0).0 e)) (v, a)
  | inr e ↦
      let some_bytes : len b ≢ 0 = λ z. cc ((==_iff (len b) 0).1 z, e) in
      let (valid, count, q, d) = read_queue dst b v in
      rw (chain_read2_buffered func dst b s some_bytes) (
        valid,
        (
          length-read dst b v,
          omega arith,
          λ n k.
              let same : (read dst b).2 ≡ n = cc k in
              (
                omega (arith, same, count, (min_bounds (len b) (length dst)).1),
                λ room.
                    omega (arith, same, count, some_of_both (len b) (length dst) some_bytes room),
              ),
        ),
      )
]

-- What is consumed comes off the front of the queue.
pub consume_queue :
    (b : ShortBuf) (front rest : List ℕ)
    → IsValid b
    → buffer b ≡ front ++ rest
    → (consume (length front) b ≡ some (record b { offset = b.offset + length front }))
      × (buffer (record b { offset = b.offset + length front }) ≡ rest)
      × IsValid (record b { offset = b.offset + length front })
unfolding consume len
consume_queue b front rest v e =
    let n = length front in
    let total : length front + length rest ≡ b.end - b.offset =
      sym (length-append front rest) ∙ ap length (sym e) ∙ length-buffer b v in
    let within : n ≤ b.end - b.offset = omega (arith, total) in
    let fits : leb n (b.end - b.offset) ≡ true = ground (arith, within) in
    let split = buffer-copied b [] n v within in
    let left : List ℕ = buffer (record b { offset = b.offset + n }) in
    let part : List ℕ = take n (copied b [] n v within ++ drop n []) in
    let part_length : length part ≡ n =
      ap length (take-copied b [] n v within) ∙ length-copied b [] n v within in
    (
      rw fits refl,
      sym (drop-append part left)
          ∙ ap (λ k. drop k (part ++ left)) part_length
          ∙ ap (drop n) (sym split ∙ e)
          ∙ drop-append front rest,
      record { ordered = omega (arith, within, v.ordered); inside = v.inside },
    )
