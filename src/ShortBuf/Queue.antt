-- ===== src/ShortBuf/Queue.antt =====
-- The buffer as a queue: what has to hold of it, and of the callbacks that fill it.
pub mod Fill
pub mod Read
pub mod Until
use quiche_moq.Common.{
  List, arith, drop, length, length-drop, length-take, suc, ℕ, ◌+◌, ◌-◌, ◌≡◌, ◌≤◌,
}
use quiche_moq.Common.Outcome.{Outcome, ok}
use quiche_moq.ShortBuf.{Callback, ShortBuf, buffer, len}

pub record IsValid (b : ShortBuf) : Type 0 where
  pub ordered : b.offset ≤ b.end
  pub inside : b.end ≤ length b.buf

-- What the type of the callback and the contract of `Read::read` promise: the slice keeps its
-- length, and no more bytes are reported than it has.
pub record IsFill {S E : Type 0} (func : Callback S E) : Type 0 where
  pub keeps : (s : S) (b : List ℕ) → length (func s b).1 ≡ length b
  pub fits : (s : S) (b : List ℕ) (n : ℕ) → (func s b).2 ≡ ok n → n ≤ length b

-- The same of the calls in one state.
abbrev pub IsFillAt : {S E : Type 0} → Callback S E → S → Type 0
IsFillAt func s = IsFill (λ _. func s)

-- What a call with a slice `b` in the state `s` answers, where `left` bounds how often a slice with
-- room is still answered without a byte, as at the end of a stream.
abbrev pub Answers : {S E : Type 0} → (S → ℕ) → S → List ℕ → S × List ℕ × Outcome E ℕ → Type 0
Answers left s b (s', b', r) =
    (length b' ≡ length b)
    × (left s' ≤ left s)
    × ((n : ℕ) → r ≡ ok n → (n ≤ length b) × (1 ≤ length b → suc (left s') ≤ left s + n))

pub Answers-IsFillAt :
    {S E : Type 0} (func : Callback S E) (left : S → ℕ) (s : S)
    → ((b : List ℕ) → Answers left s b (func s b))
    → IsFillAt func s
Answers-IsFillAt func left s h = record {
  keeps = λ _ b. (h b).0;
  fits = λ _ b n e. ((h b).2 n e).0;
}

pub length-buffer : (b : ShortBuf) → IsValid b → length (buffer b) ≡ len b
unfolding buffer len
length-buffer b v =
    length-take (b.end - b.offset) (drop b.offset b.buf)
      (omega (arith, v.ordered, v.inside, length-drop b.offset b.buf))

pub len_le : (b : ShortBuf) → IsValid b → len b ≤ length b.buf
unfolding len
len_le b v = omega (arith, v.inside)
