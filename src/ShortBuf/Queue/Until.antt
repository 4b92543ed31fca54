-- ===== src/ShortBuf/Queue/Until.antt =====
-- Filling up to a length.
use quiche_moq.Common.{
  Bool-cases, List, [], ap, append-nil, arith, drop, inl, inr, leb, leb→le, length, length-append,
  length-drop, length-take, refl, suc, take, take-append, zero, ℕ, ◌+◌, ◌-◌, ◌==◌, ◌∷◌, ◌≡◌, ◌≤◌,
}
use quiche_moq.Common.Outcome.{Outcome, ok, err, panicked}
use quiche_moq.ShortBuf.{Callback, ShortBuf, buffer, fill_n, fill_until, first, len}
use quiche_moq.ShortBuf.Queue.{IsFill, IsValid, length-buffer}
use quiche_moq.ShortBuf.Queue.Fill.{Filled, fill_queue}

length-take_le : (n : ℕ) (xs : List ℕ) → length (take n xs) ≤ n
length-take_le zero xs = omega arith
length-take_le (suc n) [] = omega arith
length-take_le (suc n) (x ∷ xs) = omega (arith, length-take_le n xs)

-- At most `k` bytes come behind those that are there.
abbrev pub Extends : ℕ → ShortBuf → ShortBuf → Type 0
Extends k b c = (take (len b) (buffer c) ≡ buffer b) × (len c ≤ len b + k)

same-Extends :
    (k : ℕ) (b c : ShortBuf) → IsValid b → IsValid c → buffer c ≡ buffer b → Extends k b c
same-Extends k b c v w e = (
  rw (e) (take_all (buffer b) (len b) (length-buffer b v)),
  omega (arith, length-buffer b v, length-buffer c w, ap length e),
)
  where
    take_all : (xs : List ℕ) (n : ℕ) → length xs ≡ n → take n xs ≡ xs
    take_all xs n e = rw (← e) (rw (append-nil xs) at (take-append xs []))

Filled-Extends :
    {E : Type 0} (k : ℕ) (b c : ShortBuf) (called : List ℕ × Outcome E ℕ) (r : Outcome E (Unit {0}))
    → IsValid b
    → IsValid c
    → ((m : ℕ) → called.1 ≡ ok m → m ≤ k)
    → Filled b c called r
    → Extends k b c
Filled-Extends k b c (slice, ok m) r v w h f = (
  rw (f.0, ← (length-buffer b v)) (take-append (buffer b) (take m slice)),
  omega (
    arith,
    h m refl,
    length-buffer b v,
    length-buffer c w,
    ap length f.0,
    length-append (buffer b) (take m slice),
    length-take_le m slice,
  ),
)
Filled-Extends k b c (slice, err x) r v w h f = same-Extends k b c v w f.0
Filled-Extends k b c (slice, panicked) r v w h f = same-Extends k b c v w f.0

module _ {S E : Type 0} (func : Callback S E) (w : IsFill func) (k : ℕ) where
  first_at_most :
      (x : S) (s : List ℕ) (m : ℕ) → (first k func x s).2 ≡ ok m → (m ≤ k) × (m ≤ length s)
  unfolding first
  first_at_most x s m e = elim (Bool-cases (leb k (length s))) [
    | inl t ↦
        let fits = w.fits x (take k s) m (rw t at e) in
        (
          omega (arith, fits, length-take_le k s),
          omega (arith, fits, length-take_le k s, leb→le _ _ t),
        )
    | inr t ↦ absurd (cc (rw t at e))
  ]

  first-IsFill : IsFill (first k func)
  unfolding first
  first-IsFill = record { keeps = keeps; fits = λ x s m e. (first_at_most x s m e).1 }
    where
      keeps : (x : S) (s : List ℕ) → length (first k func x s).1 ≡ length s
      keeps x s = elim (Bool-cases (leb k (length s))) [
        | inl t ↦ rw t (
            omega (
              arith,
              leb→le _ _ t,
              length-append (func x (take k s)).1 (drop k s),
              w.keeps x (take k s),
              length-take k s (leb→le _ _ t),
              length-drop k s,
            ))
        | inr t ↦ rw t
      ]

module _ {S E : Type 0} (func : Callback S E) (n : ℕ) (b : ShortBuf) (s : S) (v : IsValid b)
    (w : IsFill func) where
  -- For a buffer with offset at most end and end inside the array, and a callback that keeps the
  -- length of its slice and reports at most that many bytes, fill_until n keeps offset and end in
  -- order and inside the array, the bytes that were queued stay at the front of the queue, and the
  -- queue has at most n bytes or as many as before, whichever is more; this holds as well where the
  -- callback fails, and where fill_n panics as the array has no room for the missing bytes.
  pub fill_until-Extends :
      IsValid (fill_until func n b s).0 × Extends (n - len b) b (fill_until func n b s).0
  unfolding fill_until fill_n
  fill_until-Extends = elim (Bool-cases (n - len b == 0)) [
    | inl e ↦ rw e (v, same-Extends _ b b v v refl)
    | inr e ↦ rw e (
        let (valid, l, room, filled) =
          fill_queue (first (n - len b) func) b s v (first-IsFill func w _) in
        (
          valid,
          Filled-Extends _ b _ _ _ v valid (λ m k. (first_at_most func w _ s _ m k).0) filled,
        ))
  ]
