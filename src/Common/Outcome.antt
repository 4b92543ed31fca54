-- ===== src/Common/Outcome.antt =====
-- What a call leaves behind it besides the state: a value, an error, or a panic.
pub data Outcome (E A : Type 0) : Type 0 where
  ok : A → Outcome E A
  err : E → Outcome E A
  panicked : Outcome E A
