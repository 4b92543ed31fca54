-- ===== src/ShortBuf/Queue/Fill.antt =====
-- What is filled in comes behind what is there.
use quiche_moq.Common.{
  ==_iff, Bool-cases, List, ap, arith, drop, inl, inr, length, length-append, length-drop,
  length-take, refl, sym, take, take-append, take_append_more, ℕ, ◌++◌, ◌+◌, ◌-◌, ◌==◌, ◌∙◌, ◌≡◌,
  ◌≤◌,
}
use quiche_moq.Common.Outcome.{Outcome, ok, err, panicked}
use quiche_moq.ShortBuf.{Callback, ShortBuf, buffer, compact, copy_to_front, extend, fill, len}
use quiche_moq.ShortBuf.Queue.{IsFill, IsValid, len_le, length-buffer}

-- After the first half of `fill` the queue stands at the front, and nothing is lost.
compact_facts :
    (b : ShortBuf)
    → IsValid b
    → ((compact b).offset ≡ 0)
      × ((compact b).end ≡ len b)
      × (length (compact b).buf ≡ length b.buf)
      × (take (len b) (compact b).buf ≡ buffer b)
unfolding compact copy_to_front buffer len
compact_facts b v = elim (Bool-cases (b.offset == 0)) [
  | inl e ↦
      let zero_offset = (==_iff b.offset 0).0 e in
      rw e (zero_offset, omega (arith, zero_offset), refl, rw (zero_offset))
  | inr e ↦ elim (Bool-cases (b.offset == b.end)) [
    | inl k ↦
        let same = (==_iff b.offset b.end).0 k in
        let none_left : b.end - b.offset ≡ 0 = omega (arith, same) in
        rw (e, k) (refl, sym none_left, refl, rw (none_left))
    | inr k ↦ rw (e, k) (refl, refl, moved (length-buffer b v), kept (length-buffer b v))
  ]
]
  where
    moved :
        length (take (b.end - b.offset) (drop b.offset b.buf)) ≡ b.end - b.offset
        → length (take (b.end - b.offset) (drop b.offset b.buf) ++ drop (b.end - b.offset) b.buf)
          ≡ length b.buf
    moved c = omega (
      arith,
      c,
      v.ordered,
      v.inside,
      length-append (take (b.end - b.offset) (drop b.offset b.buf)) (drop (b.end - b.offset) b.buf),
      length-drop (b.end - b.offset) b.buf,
    )

    kept :
        length (take (b.end - b.offset) (drop b.offset b.buf)) ≡ b.end - b.offset
        → take
            (b.end - b.offset)
            (take (b.end - b.offset) (drop b.offset b.buf) ++ drop (b.end - b.offset) b.buf)
          ≡ take (b.end - b.offset) (drop b.offset b.buf)
    kept c =
        ap
          (λ n.
            take n (take (b.end - b.offset) (drop b.offset b.buf) ++ drop (b.end - b.offset) b.buf))
          (sym c)
        ∙ take-append (take (b.end - b.offset) (drop b.offset b.buf))
            (drop (b.end - b.offset) b.buf)

-- What `extend` makes of a queue that stands at the front.
abbrev pub Filled :
    {E : Type 0} → ShortBuf → ShortBuf → List ℕ × Outcome E ℕ → Outcome E (Unit {0}) → Type 0
Filled b c (slice, ok n) r = (buffer c ≡ buffer b ++ take n slice) × (r ≡ ok tt)
Filled b c (slice, err e) r = (buffer c ≡ buffer b) × (r ≡ err e)
Filled b c (slice, panicked) r = (buffer c ≡ buffer b) × (r ≡ panicked)

module _ (b : ShortBuf) (slice : List ℕ) (v : IsValid b) (z : b.offset ≡ 0) where
  length-front : length (take b.end b.buf) ≡ b.end
  length-front = length-take b.end b.buf v.inside

  at_front : buffer b ≡ take b.end b.buf
  unfolding buffer
  at_front = rw (z) (ap (λ n. take n b.buf) (omega arith))

  front_kept : take (b.end - b.offset) (drop b.offset (take b.end b.buf ++ slice)) ≡ buffer b
  front_kept =
      rw (at_front, z)
        (ap (λ n. take n (take b.end b.buf ++ slice))
            (the_end (b.end) (length (take b.end b.buf)) length-front)
          ∙ take-append (take b.end b.buf) slice)
    where
      the_end : (m n : ℕ) → n ≡ m → m - 0 ≡ n
      the_end m n e = omega (arith, e)

  front_grown :
      (n : ℕ)
      → take (b.end + n - b.offset) (drop b.offset (take b.end b.buf ++ slice))
        ≡ buffer b ++ take n slice
  front_grown n =
      rw (at_front, z)
        (ap (λ k. take k (take b.end b.buf ++ slice))
            (the_end b.end (length (take b.end b.buf)) length-front)
          ∙ take_append_more (take b.end b.buf) slice n)
    where
      the_end : (m k : ℕ) → k ≡ m → m + n - 0 ≡ k + n
      the_end m k e = omega (arith, e)

  length-extended :
      length slice ≡ length b.buf - b.end → length (take b.end b.buf ++ slice) ≡ length b.buf
  length-extended l =
      omega (arith, l, v.inside, length-front, length-append (take b.end b.buf) slice)

module _ {E : Type 0} where
  extend_facts :
      (b : ShortBuf) (called : List ℕ × Outcome E ℕ)
      → IsValid b
      → b.offset ≡ 0
      → length called.0 ≡ length b.buf - b.end
      → ((n : ℕ) → called.1 ≡ ok n → n ≤ length called.0)
      → IsValid (extend b called).0
        × (length (extend b called).0.buf ≡ length b.buf)
        × Filled b (extend b called).0 called (extend b called).1
  unfolding extend buffer
  extend_facts b (slice, ok n) v z l f =
      let same = length-extended b slice v z l in
      (
        record {
          ordered = omega (arith, v.ordered);
          inside = omega (arith, same, l, f n refl, v.inside);
        },
        same,
        (front_grown b slice v z n, refl),
      )
  extend_facts b (slice, err e) v z l f =
      let same = length-extended b slice v z l in
      (
        record { ordered = v.ordered; inside = omega (arith, same, v.inside) },
        same,
        (front_kept b slice v z, refl),
      )
  extend_facts b (slice, panicked) v z l f =
      let same = length-extended b slice v z l in
      (
        record { ordered = v.ordered; inside = omega (arith, same, v.inside) },
        same,
        (front_kept b slice v z, refl),
      )

same_queue :
    {E : Type 0} (a b c : ShortBuf) (called : List ℕ × Outcome E ℕ) (r : Outcome E (Unit {0}))
    → buffer a ≡ buffer b
    → Filled a c called r
    → Filled b c called r
same_queue a b c (slice, ok n) r e f = (f.0 ∙ ap (λ t. t ++ take n slice) e, f.1)
same_queue a b c (slice, err x) r e f = (f.0 ∙ e, f.1)
same_queue a b c (slice, panicked) r e f = (f.0 ∙ e, f.1)

module _ {S E : Type 0} (func : Callback S E) where
  -- The part of the array that `fill` hands to the callback.
  abbrev pub space : ShortBuf → List ℕ
  space b = drop (compact b).end (compact b).buf

  -- For a buffer with offset at most end and end inside the array, and a callback that keeps the
  -- length of its slice and reports at most that many bytes: fill hands it all the array but the
  -- bytes that are queued; the bytes that it reports come behind those in the queue, and after an
  -- error or a panic the queue is the same; offset and end stay in order and inside the array,
  -- which keeps its length.
  pub fill_queue :
      (b : ShortBuf) (s : S)
      → IsValid b
      → IsFill func
      → IsValid (fill func b s).0
        × (length (fill func b s).0.buf ≡ length b.buf)
        × (length (space b) ≡ length b.buf - len b)
        × Filled b (fill func b s).0 ((func s (space b)).1, (func s (space b)).2) (fill func b s).2
  unfolding fill
  fill_queue b s v w =
      let (z, e, l, t) = compact_facts b v in
      let valid : IsValid (compact b) = record {
        ordered = omega (arith, z);
        inside = omega (arith, e, l, v.ordered, v.inside, length-buffer b v, len_le b v);
      } in
      let room = length-drop (compact b).end (compact b).buf in
      let facts =
        extend_facts (compact b) ((func s (space b)).1, (func s (space b)).2) valid z
          (w.keeps s (space b) ∙ room)
          (λ n k. omega (arith, w.fits s (space b) n k, w.keeps s (space b))) in
      let front = at_front (compact b) (space b) valid z ∙ ap (λ n. take n (compact b).buf) e ∙ t in
      (
        facts.0,
        facts.1 ∙ l,
        omega (arith, room, e, l),
        same_queue (compact b) b (extend (compact b) ((func s (space b)).1, (func s (space b)).2)).0
            ((func s (space b)).1, (func s (space b)).2)
            (extend (compact b) ((func s (space b)).1, (func s (space b)).2)).1 front facts.2,
      )

-- Where `fill` succeeds, the queue is longer by what was reported.
added :
    {E : Type 0} (b c : ShortBuf) (called : List ℕ × Outcome E ℕ) (r : Outcome E (Unit {0}))
    → IsValid b
    → IsValid c
    → ((n : ℕ) → called.1 ≡ ok n → n ≤ length called.0)
    → Filled b c called r
    → r ≡ ok tt
    → (n : ℕ) × (called.1 ≡ ok n) × (len c ≡ len b + n)
added b c (slice, ok n) r v w h f e = (
  n,
  refl,
  omega (
    arith,
    length-buffer b v,
    length-buffer c w,
    ap length f.0,
    length-append (buffer b) (take n slice),
    length-take n slice (h n refl),
  ),
)
added b c (slice, err x) r v w h f e = absurd (cc (f.1, e))
added b c (slice, panicked) r v w h f e = absurd (cc (f.1, e))

pub fill_adds :
    {S E : Type 0} (func : Callback S E) (b : ShortBuf) (s : S)
    → IsValid b
    → IsFill func
    → (fill func b s).2 ≡ ok tt
    → (n : ℕ) × ((func s (space func b)).2 ≡ ok n) × (len (fill func b s).0 ≡ len b + n)
fill_adds func b s v w e =
    let (valid, l, room, filled) = fill_queue func b s v w in
    added b (fill func b s).0 ((func s (space func b)).1, (func s (space func b)).2) _ v valid
      (λ n k. omega (arith, w.fits s (space func b) n k, w.keeps s (space func b))) filled e
