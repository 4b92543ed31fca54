-- ===== src/Moq/Action.antt =====
-- A method of the session: code that changes a state and ends in a value, an error or a panic.
use quiche_moq.Common.{Bool, Option, false, if◌then◌else◌, none, refl, some, true, ◌≡◌}
use quiche_moq.Common.Outcome.{Outcome}
use quiche_moq.Moq.Error.{Error}

-- `unfinished` is the answer of a loop whose fuel is used up.
pub data Reply (A : Type 0) : Type 0 where
  ok : A → Reply A
  err : Error → Reply A
  panicked unfinished : Reply A

-- What was changed before an error stays changed.
abbrev pub Action : Type 0 → Type 0 → Type 0
Action T A = T → T × Reply A

module _ {T : Type 0} where
  abbrev pub after : {A B : Type 0} → T × Reply A → (A → Action T B) → T × Reply B
  after (t, ok a) f = f a t
  after (t, err e) f = (t, err e)
  after (t, panicked) f = (t, panicked)
  after (t, unfinished) f = (t, unfinished)

  infixl 5 ◌>>=◌ ◌>>◌
  abbrev pub ◌>>=◌ : {A B : Type 0} → Action T A → (A → Action T B) → Action T B
  ◌>>=◌ m f t = after (m t) f

  abbrev pub ◌>>◌ : {B : Type 0} → Action T (Unit {0}) → Action T B → Action T B
  ◌>>◌ m k t = after (m t) (λ u. k)

  abbrev pub pure : {A : Type 0} → A → Action T A
  pure a t = (t, ok a)

  abbrev pub panics : {A : Type 0} → Action T A
  panics t = (t, panicked)

  abbrev pub raise : {A : Type 0} → Error → Action T A
  raise e t = (t, err e)

  -- `Option::unwrap`
  abbrev pub unwrap : {A : Type 0} → Option A → Action T A
  unwrap none = panics
  unwrap (some a) = pure a

  abbrev pub assert : Bool → Action T (Unit {0})
  assert true = pure tt
  assert false = panics

-- `Result::unwrap`
abbrev pub unwrapped : {E A : Type 0} → Outcome E A → Reply A
unwrapped (Outcome.ok a) = ok a
unwrapped (Outcome.err e) = panicked
unwrapped Outcome.panicked = panicked

abbrev pub reply : {A : Type 0} → Outcome Error A → Reply A
reply (Outcome.ok a) = ok a
reply (Outcome.err e) = err e
reply Outcome.panicked = panicked

-- What holds of the state, and is kept by a method whatever it answers.
abbrev pub Keeps : {T A : Type 0} → (T → Type 0) → Action T A → Type 0
Keeps {T} P m = (t : T) → P t → P (m t).0

module _ {T : Type 0} (P : T → Type 0) where
  pub after-Keeps :
      {A B : Type 0} (x : T × Reply A) (f : A → Action T B)
      → P x.0
      → ((a : A) → Keeps P (f a))
      → P (after x f).0
  after-Keeps (t, ok a) f h k = k a t h
  after-Keeps (t, err e) f h k = h
  after-Keeps (t, panicked) f h k = h
  after-Keeps (t, unfinished) f h k = h

  pub bind-Keeps :
      {A B : Type 0} (m : Action T A) (f : A → Action T B)
      → Keeps P m
      → ((a : A) → Keeps P (f a))
      → Keeps P (m >>= f)
  bind-Keeps m f h k t p = after-Keeps (m t) f (h t p) k

  pub then-Keeps :
      {B : Type 0} (m : Action T (Unit {0})) (k : Action T B)
      → Keeps P m
      → Keeps P k
      → Keeps P (m >> k)
  then-Keeps m k h g t p = after-Keeps (m t) (λ u. k) (h t p) (λ u. g)

  pub unwrap-Keeps : {A : Type 0} (x : Option A) → Keeps P (unwrap x)
  unwrap-Keeps none t p = p
  unwrap-Keeps (some a) t p = p

  pub assert-Keeps : (b : Bool) → Keeps P (assert b)
  assert-Keeps true t p = p
  assert-Keeps false t p = p

  pub if-Keeps :
      {A : Type 0} (b : Bool) (m k : Action T A)
      → Keeps P m
      → Keeps P k
      → Keeps P (λ t. if b then m t else k t)
  if-Keeps true m k h g = h
  if-Keeps false m k h g = g

  -- What an option is unwrapped to is what it holds.
  pub unwrap_then :
      {A B : Type 0} (x : Option A) (f : A → Action T B) (t : T)
      → P t
      → ((a : A) → x ≡ some a → P (f a t).0)
      → P (after (unwrap x t) f).0
  unwrap_then none f t p h = p
  unwrap_then (some a) f t p h = h a refl

  pub assert_then :
      {B : Type 0} (b : Bool) (f : Unit {0} → Action T B) (t : T)
      → P t
      → (b ≡ true → P (f tt t).0)
      → P (after (assert b t) f).0
  assert_then true f t p h = h refl
  assert_then false f t p h = p

-- What is answered where nothing fails on the way.
pub after_ok :
    {T A B : Type 0} (x : T × Reply A) (f : A → Action T B) (u : T) (b : B)
    → after x f ≡ (u, ok b)
    → (a : A) × (x.1 ≡ ok a) × (f a x.0 ≡ (u, ok b))
after_ok (t, ok a) f u b e = (a, refl, e)
after_ok (t, err i) f u b e = absurd (cc e)
after_ok (t, panicked) f u b e = absurd (cc e)
after_ok (t, unfinished) f u b e = absurd (cc e)
