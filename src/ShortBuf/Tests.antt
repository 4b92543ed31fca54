-- ===== src/ShortBuf/Tests.antt =====
-- The properties of the buffer at a concrete state: four of eight bytes are used, from the second on.
use quiche_moq.Common.{List, [], arith, drop, length, refl, take, ℕ, ◌++◌, ◌+◌, ◌-◌, ◌∷◌, ◌≡◌, ◌≤◌}
use quiche_moq.Common.Outcome.{ok}
use quiche_moq.ShortBuf.Queue.Until.{Extends, fill_until-Extends}
use quiche_moq.ShortBuf.{fill_until, Callback, ShortBuf, buffer, fill, len, min, read}
use quiche_moq.ShortBuf.Queue.{IsFill, IsValid}
use quiche_moq.ShortBuf.Queue.Fill.{Filled, fill_queue, space}
use quiche_moq.ShortBuf.Queue.Read.{read_queue}

abbrev used : ShortBuf
used = record { buf = 0 ∷ 1 ∷ 2 ∷ 3 ∷ 4 ∷ 5 ∷ 6 ∷ 7 ∷ []; offset = 1; end = 5 }

used-IsValid : IsValid used
used-IsValid = record { ordered = omega arith; inside = omega arith }

-- A callback that writes and reports the first byte, and counts its calls.
abbrev one : Callback ℕ ℕ
one s [] = (s + 1, [], ok 0)
one s (x ∷ xs) = (s + 1, 9 ∷ xs, ok 1)

one-IsFill : IsFill one
one-IsFill = record { keeps = keeps; fits = fits }
  where
    keeps : (s : ℕ) (b : List ℕ) → length (one s b).1 ≡ length b
    keeps s [] = refl
    keeps s (x ∷ xs) = refl

    fits : (s : ℕ) (b : List ℕ) (n : ℕ) → (one s b).2 ≡ ok n → n ≤ length b
    fits s [] n e = let z : 0 ≡ n = cc e in omega (arith, z)
    fits s (x ∷ xs) n e = let z : 1 ≡ n = cc e in omega (arith, z)

fill-used : buffer (fill one used 0).0 ≡ 1 ∷ 2 ∷ 3 ∷ 4 ∷ 9 ∷ []
unfolding fill buffer
fill-used = refl

fill_queue_example :
    IsValid (fill one used 0).0
    × (length (fill one used 0).0.buf ≡ length used.buf)
    × (length (space one used) ≡ length used.buf - len used)
    × Filled used
        (fill one used 0).0
        ((one 0 (space one used)).1, (one 0 (space one used)).2)
        (fill one used 0).2
fill_queue_example = fill_queue one used 0 used-IsValid one-IsFill

abbrev target : List ℕ
target = 8 ∷ 8 ∷ []

read_queue_example :
    IsValid (read target used).0
    × ((read target used).2 ≡ min (len used) (length target))
    × (buffer used ≡ take (read target used).2 (read target used).1 ++ buffer (read target used).0)
    × (drop (read target used).2 (read target used).1 ≡ drop (read target used).2 target)
read_queue_example = read_queue target used used-IsValid

filled-until : buffer (fill_until one 6 used 0).0 ≡ 1 ∷ 2 ∷ 3 ∷ 4 ∷ 9 ∷ []
unfolding fill_until buffer
filled-until = refl

fill_until-Extends_example :
    IsValid (fill_until one 6 used 0).0 × Extends (6 - len used) used (fill_until one 6 used 0).0
fill_until-Extends_example = fill_until-Extends one 6 used 0 used-IsValid one-IsFill
