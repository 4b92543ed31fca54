-- ===== src/Octets/Codec.antt =====
-- When a writer and a reader agree on the bytes of a value, and how such pairs are put together.
use quiche_moq.Common.{
  All, Bool, Cut, Cut-append, List, Option, [], ap, append-nil, append_assoc, arith, drop-drop,
  false, if◌then◌else◌, inl, inr, length, length-append, length-drop, le→leb, none, refl, some, suc,
  sym, true, zero, ℕ, ◌*◌, ◌++◌, ◌-◌, ◌<◌, ◌^◌, ◌∷◌, ◌≡◌,
}
use mathlib.Core.Path.{fun_ext}
use quiche_moq.Octets.{
  Result, lift, M, Reader, Writer, assert, buffer_too_short, emit, err, ok, panics, pure,
  with_capacity, ◌>>=◌, ◌>>◌,
}

pub emit-append : (xs ys : List ℕ) (w : Writer) → emit (xs ++ ys) w ≡ (emit xs >> emit ys) w
unfolding emit ◌>>◌
emit-append xs ys w = ground (
  arith,
  length-append xs ys,
  length-drop (length xs) w.ahead,
  drop-drop (length xs) (length ys) w.ahead,
  append_assoc w.written xs ys,
)

pub emit-nil : (w : Writer) → emit [] w ≡ ok (tt, w)
unfolding emit
emit-nil w = ground (arith, append-nil w.written)

-- `p` writes some bytes, or fails for want of room and for that alone; `g` reads `a` off them,
-- whatever follows, and asks for more when it is given a part of them only.
pub record Codes {A : Type 0} (p : M Writer (Unit {0})) (g : M Reader A) (a : A) : Type 0 where
  pub bytes : List ℕ
  pub puts : (w : Writer) → p w ≡ emit bytes w
  pub gets : (r : Reader) → g (bytes ++ r) ≡ ok (a, r)
  pub cuts : (r : Reader) → Cut r bytes → g r ≡ err buffer_too_short

module _ {A : Type 0} where
  pub done : (a : A) → Codes (pure tt) (pure a) a
  done a = record {
    bytes = [];
    puts = λ w. sym (emit-nil w);
    gets = λ r. refl;
    cuts = λ r c. absurd c;
  }

  -- Two tests of the same condition.
  pub branch :
      (b : Bool) {p q : M Writer (Unit {0})} {g h : M Reader A} {a : A}
      → (b ≡ true → Codes p g a)
      → (b ≡ false → Codes q h a)
      → Codes (if b then p else q) (if b then g else h) a
  branch true c d = c refl
  branch false c d = d refl

module _ {A B : Type 0} {p q : M Writer (Unit {0})} {g : M Reader A} where
  -- One value behind another.
  pub seq :
      (h : A → M Reader B) {a : A} {b : B}
      → Codes p g a
      → Codes q (h a) b
      → Codes (p >> q) (g >>= h) b
  unfolding ◌>>=◌ ◌>>◌
  seq h {a} {b} c d = record {
    bytes = c.bytes ++ d.bytes;
    puts = λ w. rw (emit-append c.bytes d.bytes w, c.puts, fun_ext d.puts);
    gets = λ r. rw (append_assoc c.bytes d.bytes r, c.gets) (d.gets r);
    cuts = λ r cut. elim (Cut-append r c.bytes d.bytes cut) [
      | inl part ↦ rw (c.cuts r part)
      | inr (t, e, part) ↦ rw (e, c.gets) (d.cuts t part)
    ];
  }

module _ {A B : Type 0} {p : M Writer (Unit {0})} {g : M Reader A} where
  -- A value that is put into a larger one.
  pub last : (f : A → B) {a : A} → Codes p g a → Codes p (g >>= λ x. pure (f x)) (f a)
  unfolding ◌>>=◌
  last f c = record {
    bytes = c.bytes;
    puts = c.puts;
    gets = λ r. rw (c.gets);
    cuts = λ r cut. rw (c.cuts r cut);
  }

module _ {A B : Type 0} {p : M Writer (Unit {0})} {g : M Reader A} where
  -- The same, for a value that is computed back.
  pub last_as :
      (f : A → B) {a : A} {b : B} → f a ≡ b → Codes p g a → Codes p (g >>= λ x. pure (f x)) b
  last_as f e c = rw (← e) (last f c)

-- A value that is checked and turned into another.
pub finish :
    {A B : Type 0} {p : M Writer (Unit {0})} {g : M Reader A} (h : A → M Reader B) {a : A} {b : B}
    → h a ≡ pure b
    → Codes p g a
    → Codes p (g >>= h) b
unfolding ◌>>=◌
finish h {a} {b} e c = record {
  bytes = c.bytes;
  puts = c.puts;
  gets = λ r. rw (c.gets r) (ap (λ m. m r) e);
  cuts = λ r cut. rw (c.cuts r cut);
}

-- Assertions that hold, in front of a reader or a writer.
pub read_assert :
    {A : Type 0} {p : M Writer (Unit {0})} {g : M Reader A} {a : A} (b : Bool)
    → b ≡ true
    → Codes p g a
    → Codes p (assert b >> g) a
unfolding assert ◌>>◌
read_assert b e c = rw e c

pub write_assert :
    {A : Type 0} {p : M Writer (Unit {0})} {g : M Reader A} {a : A} (b : Bool)
    → b ≡ true
    → Codes p g a
    → Codes (assert b >> p) g a
unfolding assert ◌>>◌
write_assert b e c = rw e c

pub reserve :
    {A : Type 0} {p : M Writer (Unit {0})} {g : M Reader A} {a : A} (size n : ℕ)
    → size * n < 2 ^ 63
    → Codes p g a
    → Codes p (with_capacity size n >> g) a
unfolding with_capacity
reserve size n h c = read_assert _ (le→leb (size * n) (2 ^ 63 - 1) (omega arith)) c

-- `for x in xs { p(x)?; }`
unfoldable pub for_each : {A : Type 0} → (A → M Writer (Unit {0})) → List A → M Writer (Unit {0})
for_each p [] = pure tt
for_each p (x ∷ xs) = p x >> for_each p xs

-- `for _ in 0..n { xs.push(g()?); }`
unfoldable pub times : {A : Type 0} → ℕ → M Reader A → M Reader (List A)
times zero g = pure []
times (suc n) g = g >>= λ x. times n g >>= λ xs. pure (x ∷ xs)

pub repeat :
    {A : Type 0} (p : A → M Writer (Unit {0})) (g : M Reader A) (xs : List A)
    → All (λ x. Codes (p x) g x) xs
    → Codes (for_each p xs) (times (length xs) g) xs
unfolding for_each times
repeat p g [] cs = done []
repeat p g (x ∷ xs) (c, cs) = seq _ c (last _ (repeat p g xs cs))

-- `p(x.unwrap())`
unfoldable pub put_unwrapped :
    {A : Type 0} → (A → M Writer (Unit {0})) → Option A → M Writer (Unit {0})
put_unwrapped p none = panics
put_unwrapped p (some x) = p x

-- A result that is there already, in front of a reader or a writer.
pub read_lift :
    {A B : Type 0} {p : M Writer (Unit {0})} {b : B} (r : Result A) (h : A → M Reader B) {a : A}
    → r ≡ ok a
    → Codes p (h a) b
    → Codes p (lift r >>= h) b
unfolding ◌>>=◌
read_lift r h e c = rw e c

pub write_lift :
    {A : Type 0} {p : M Writer (Unit {0})} {g : M Reader A} {a : A} (r : Result (Unit {0}))
    → r ≡ ok tt
    → Codes p g a
    → Codes (lift r >> p) g a
unfolding ◌>>◌
write_lift r e c = rw e c

pub write_lift_as :
    {A B : Type 0} {g : M Reader B} {b : B} (r : Result A) (q : A → M Writer (Unit {0})) {a : A}
    → r ≡ ok a
    → Codes (q a) g b
    → Codes (lift r >>= q) g b
unfolding ◌>>=◌
write_lift_as r q e c = rw e c

-- A check that passes.
pub read_check :
    {A : Type 0} {p : M Writer (Unit {0})} {g : M Reader A} {a : A} (c : M Reader (Unit {0}))
    → c ≡ pure tt
    → Codes p g a
    → Codes p (c >> g) a
unfolding ◌>>◌
read_check c e d = rw e d

pub write_check :
    {A : Type 0} {p : M Writer (Unit {0})} {g : M Reader A} {a : A} (c : M Writer (Unit {0}))
    → c ≡ pure tt
    → Codes p g a
    → Codes (c >> p) g a
unfolding ◌>>◌
write_check c e d = rw e d
