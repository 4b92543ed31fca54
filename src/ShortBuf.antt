-- ===== src/ShortBuf.antt =====
-- short_buf/src/buf.rs: a queue of bytes in a fixed array, between a stream and its parser.
pub mod Queue
mod Tests
use quiche_moq.Common.Outcome.{Outcome, ok, err, panicked}
use quiche_moq.Common.{
  Bool, List, Option, drop, if◌then◌else◌, leb, length, none, some, take, ℕ, ◌++◌, ◌+◌, ◌-◌, ◌==◌,
}

-- `F: FnOnce(&mut [u8]) -> Result<usize, E>`, a closure over a state `S`: the state and the slice as
-- they are left, and the result.
abbrev pub Callback : Type 0 → Type 0 → Type 0
Callback S E = S → List ℕ → S × List ℕ × Outcome E ℕ

-- `buf` has `N` bytes.
pub record ShortBuf : Type 0 where
  pub buf : List ℕ
  pub offset : ℕ
  pub end : ℕ

-- `new`, whose array is not initialised: any bytes may stand in it.
unfoldable pub new : List ℕ → ShortBuf
new buf = record { buf = buf; offset = 0; end = 0 }

unfoldable pub buffer : ShortBuf → List ℕ
buffer b = take (b.end - b.offset) (drop b.offset b.buf)

unfoldable pub len : ShortBuf → ℕ
len b = b.end - b.offset

unfoldable pub is_empty : ShortBuf → Bool
unfolding len
is_empty b = len b == 0

unfoldable pub consume : ℕ → ShortBuf → Option ShortBuf
unfolding len
consume amt b = if leb amt (len b) then some (record b { offset = b.offset + amt }) else none

unfoldable pub consume_all : ShortBuf → ShortBuf
consume_all b = record b { offset = b.end }

unfoldable pub remaining_capacity : ShortBuf → ℕ
remaining_capacity b = length b.buf - b.end

-- `buf.copy_within(offset..end, 0)`
unfoldable pub copy_to_front : ShortBuf → List ℕ
unfolding buffer len
copy_to_front b = buffer b ++ drop (len b) b.buf

-- The first half of `fill`: the bytes are moved to the front.
unfoldable pub compact : ShortBuf → ShortBuf
unfolding copy_to_front len
compact b =
    if b.offset == 0
    then b
    else if b.offset == b.end
    then record b { offset = 0; end = 0 }
    else record { buf = copy_to_front b; offset = 0; end = len b }

abbrev pub min : ℕ → ℕ → ℕ
min m n = if leb m n then m else n

-- The state, `dst` as it is left, and the number of bytes that were read.
unfoldable pub read : List ℕ → ShortBuf → ShortBuf × List ℕ × ℕ
unfolding len
read dst b =
    let n = min (len b) (length dst) in
    (record b { offset = b.offset + n }, take n (drop b.offset b.buf) ++ drop n dst, n)

-- The second half of `fill`, after the call: `func(&mut self.buf[self.end..])?; self.end += len`.
unfoldable pub extend :
    {E : Type 0} → ShortBuf → List ℕ × Outcome E ℕ → ShortBuf × Outcome E (Unit {0})
extend b (slice, ok n) = (record b { buf = take b.end b.buf ++ slice; end = b.end + n }, ok tt)
extend b (slice, err e) = (record b { buf = take b.end b.buf ++ slice }, err e)
extend b (slice, panicked) = (record b { buf = take b.end b.buf ++ slice }, panicked)

module _ {S E : Type 0} where
  unfoldable pub fill : Callback S E → ShortBuf → S → ShortBuf × S × Outcome E (Unit {0})
  unfolding compact extend
  fill func b s =
      let c = compact b in
      let called = func s (drop c.end c.buf) in
      let extended = extend c (called.1, called.2) in (extended.0, called.0, extended.1)

  -- `|b| func(&mut b[..n])`, which panics where the slice is shorter.
  unfoldable pub first : ℕ → Callback S E → Callback S E
  first n func s b =
      if leb n (length b)
      then (let called = func s (take n b) in (called.0, called.1 ++ drop n b, called.2))
      else (s, b, panicked)

  unfoldable pub fill_n : Callback S E → ℕ → ShortBuf → S → ShortBuf × S × Outcome E (Unit {0})
  unfolding fill first
  fill_n func n b s = fill (first n func) b s

  unfoldable pub fill_until : Callback S E → ℕ → ShortBuf → S → ShortBuf × S × Outcome E (Unit {0})
  unfolding fill_n len
  fill_until func n b s =
      let remaining = n - len b in
      if remaining == 0 then (b, s, ok tt) else fill_n func remaining b s

  unfoldable pub chain_read2 :
      Callback S E → List ℕ → ShortBuf → S → ShortBuf × S × List ℕ × Outcome E ℕ
  unfolding len is_empty
  chain_read2 func dst b s =
      let n = min (length dst) (len b) in
      if is_empty b
      then (let called = func s dst in (b, called.0, called.1, called.2))
      else (record b { offset = b.offset + n }, s, take n (drop b.offset b.buf) ++ drop n dst, ok n)
