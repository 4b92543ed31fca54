-- ===== src/Common/Lists.antt =====
-- Lists measured and cut by native numbers, under the library's names.
use Prim.Native.Nat.{ℕ, zero, suc, ◌+◌, ◌-◌, ◌≤◌, ◌<◌}
use mathlib.Core.Path.{◌≡◌, refl, ap}
use mathlib.Core.Logic.{◌⊎◌, inl, inr}
use mathlib.Core.List.{map, List, [], ◌∷◌, ◌++◌}
use mathlib.Core.Bool.{Bool, true, false, ◌&&◌, ◌||◌}
use quiche_moq.Common.Tests.{◌==◌}
use native.Mathlib.Omega.{arith}

module _ {ℓ} {A : Type ℓ} where
  abbrev pub length : List A → ℕ
  length [] = 0
  length (x ∷ xs) = suc (length xs)

  abbrev pub take : ℕ → List A → List A
  take zero xs = []
  take (suc n) [] = []
  take (suc n) (x ∷ xs) = x ∷ take n xs

  abbrev pub drop : ℕ → List A → List A
  drop zero xs = xs
  drop (suc n) [] = []
  drop (suc n) (x ∷ xs) = drop n xs

  abbrev pub All {κ} : (A → Type κ) → List A → Type κ
  All P [] = Unit {κ}
  All P (x ∷ xs) = P x × All P xs

-- `==` on sequences of bytes.
abbrev pub bytes_eq : List ℕ → List ℕ → Bool
bytes_eq [] [] = true
bytes_eq (x ∷ xs) (y ∷ ys) = x == y && bytes_eq xs ys
bytes_eq _ _ = false

module _ {A : Type 0} where
  -- The first list is a proper prefix of the second.
  abbrev pub Cut : List A → List A → Type 0
  Cut p [] = ⊥
  Cut [] (x ∷ xs) = Unit {0}
  Cut (y ∷ p) (x ∷ xs) = (y ≡ x) × Cut p xs

module _ {ℓ} {A : Type ℓ} where
  pub length-append : (xs ys : List A) → length (xs ++ ys) ≡ length xs + length ys
  length-append [] ys = omega arith
  length-append (x ∷ xs) ys = omega (arith, length-append xs ys)

  pub take-append : (xs ys : List A) → take (length xs) (xs ++ ys) ≡ xs
  take-append [] ys = refl
  take-append (x ∷ xs) ys = ap (λ t. x ∷ t) (take-append xs ys)

  pub drop-append : (xs ys : List A) → drop (length xs) (xs ++ ys) ≡ ys
  drop-append [] ys = refl
  drop-append (x ∷ xs) ys = drop-append xs ys

  pub take-append_le : (n : ℕ) (xs ys : List A) → n ≤ length xs → take n (xs ++ ys) ≡ take n xs
  take-append_le zero xs ys h = refl
  take-append_le (suc n) [] ys h = absurd (omega arith)
  take-append_le (suc n) (x ∷ xs) ys h = ap (λ t. x ∷ t) (take-append_le n xs ys (omega arith))

  pub drop-append_le :
      (n : ℕ) (xs ys : List A) → n ≤ length xs → drop n (xs ++ ys) ≡ drop n xs ++ ys
  drop-append_le zero xs ys h = refl
  drop-append_le (suc n) [] ys h = absurd (omega arith)
  drop-append_le (suc n) (x ∷ xs) ys h = drop-append_le n xs ys (omega arith)

  pub length-take : (n : ℕ) (xs : List A) → n ≤ length xs → length (take n xs) ≡ n
  length-take zero xs h = refl
  length-take (suc n) [] h = absurd (omega arith)
  length-take (suc n) (x ∷ xs) h = ap suc (length-take n xs (omega arith))

  pub length-drop : (n : ℕ) (xs : List A) → length (drop n xs) ≡ length xs - n
  length-drop zero xs = omega arith
  length-drop (suc n) [] = omega arith
  length-drop (suc n) (x ∷ xs) = omega (arith, length-drop n xs)

  pub drop-all : (xs : List A) → drop (length xs) xs ≡ []
  drop-all [] = refl
  drop-all (x ∷ xs) = drop-all xs

  pub take-all : (xs : List A) → take (length xs) xs ≡ xs
  take-all [] = refl
  take-all (x ∷ xs) = ap (λ t. x ∷ t) (take-all xs)

  pub take-append-drop : (n : ℕ) (xs : List A) → take n xs ++ drop n xs ≡ xs
  take-append-drop zero xs = refl
  take-append-drop (suc n) [] = refl
  take-append-drop (suc n) (x ∷ xs) = ap (λ t. x ∷ t) (take-append-drop n xs)

  pub drop-drop : (m n : ℕ) (xs : List A) → drop n (drop m xs) ≡ drop (m + n) xs
  drop-drop zero n xs = ap (λ k. drop k xs) (omega arith)
  drop-drop (suc m) zero [] = rw (let e : suc m + 0 ≡ suc m = omega arith in e)
  drop-drop (suc m) (suc n) [] = rw (let e : suc m + suc n ≡ suc (m + suc n) = omega arith in e)
  drop-drop (suc m) n (x ∷ xs) =
      rw (let e : suc m + n ≡ suc (m + n) = omega arith in e) (drop-drop m n xs)

module _ {A : Type 0} where
  pub length-Cut : (p xs : List A) → Cut p xs → length p < length xs
  length-Cut p [] c = absurd c
  length-Cut [] (x ∷ xs) c = omega arith
  length-Cut (y ∷ p) (x ∷ xs) c = omega (arith, length-Cut p xs c.1)

  -- A proper prefix of `xs ++ ys` ends within `xs`, or behind it within `ys`.
  pub Cut-append :
      (p xs ys : List A) → Cut p (xs ++ ys) → Cut p xs ⊎ ((q : List A) × (p ≡ xs ++ q) × Cut q ys)
  Cut-append p [] ys c = inr (p, refl, c)
  Cut-append [] (x ∷ xs) ys c = inl tt
  Cut-append (y ∷ p) (x ∷ xs) ys (e, c) = elim (Cut-append p xs ys c) [
    | inl d ↦ inl (e, d)
    | inr (q, e', d) ↦ inr (q, rw (e, e'), d)
  ]

  pub Cut-singleton : (p : List A) (x : A) → Cut p (x ∷ []) → p ≡ []
  Cut-singleton [] x c = refl
  Cut-singleton (y ∷ p) x c = absurd c.1

module _ {ℓ κ} {A : Type ℓ} {B : Type κ} where
  pub length-map : (xs : List A) (f : A → B) → length (map f xs) ≡ length xs
  length-map [] f = refl
  length-map (x ∷ xs) f = ap suc (length-map xs f)

module _ {ℓ} {A : Type ℓ} where
  pub cons_of_pos : (xs : List A) → 1 ≤ length xs → (x : A) × (t : List A) × (xs ≡ x ∷ t)
  cons_of_pos [] h = absurd (omega arith)
  cons_of_pos (x ∷ t) h = (x, t, refl)

-- `ids.contains(&ty)`
abbrev pub contains : List ℕ → ℕ → Bool
contains [] ty = false
contains (id ∷ ids) ty = id == ty || contains ids ty

pub plus_zero : (n : ℕ) → 0 + n ≡ n
plus_zero n = omega arith

pub plus_suc : (m n : ℕ) → suc m + n ≡ suc (m + n)
plus_suc m n = omega arith

module _ {ℓ} {A : Type ℓ} where
  take-nil : (n : ℕ) → take {A = A} n [] ≡ []
  take-nil zero = refl
  take-nil (suc n) = refl

  pub take_append_more :
      (xs ys : List A) (n : ℕ) → take (length xs + n) (xs ++ ys) ≡ xs ++ take n ys
  take_append_more [] ys n = rw (plus_zero n)
  take_append_more (x ∷ xs) ys n =
      rw (plus_suc (length xs) n) (ap (λ t. x ∷ t) (take_append_more xs ys n))

  pub take_split : (m n : ℕ) (xs : List A) → take (m + n) xs ≡ take m xs ++ take n (drop m xs)
  take_split zero n xs = rw (plus_zero n)
  take_split (suc m) n [] = rw (take-nil (suc m + n), take-nil n)
  take_split (suc m) n (x ∷ xs) = rw (plus_suc m n) (ap (λ t. x ∷ t) (take_split m n xs))

-- `[0u8; n]`
abbrev pub zeros : ℕ → List ℕ
zeros zero = []
zeros (suc n) = 0 ∷ zeros n

pub length-zeros : (n : ℕ) → length (zeros n) ≡ n
length-zeros zero = refl
length-zeros (suc n) = ap suc (length-zeros n)
