-- ===== src/Common/Sorting.antt =====
-- `slice::sort_by_key`: a stable sort, here by insertion.
use quiche_moq.Common.Lists.{length, All}
use mathlib.Core.Bool.{Bool}
use quiche_moq.Common.Tests.{leb, leb→le, leb→lt, if◌then◌else◌, Bool-cases}
use Prim.Native.Nat.{ℕ, suc, ◌≤◌}
use mathlib.Core.Path.{◌≡◌, refl, ap, ◌∙◌}
use mathlib.Core.Logic.{inl, inr}
use mathlib.Core.List.{map, List, [], ◌∷◌, Perm}
use mathlib.Core.List.Perm
use native.Mathlib.Omega.{arith}

module _ {A : Type 0} (key : A → ℕ) where
  unfoldable pub insert : A → List A → List A
  insert x [] = x ∷ []
  insert x (y ∷ ys) = if leb (key x) (key y) then x ∷ y ∷ ys else y ∷ insert x ys

  unfoldable pub sort_by_key : List A → List A
  unfolding insert
  sort_by_key [] = []
  sort_by_key (x ∷ xs) = insert x (sort_by_key xs)

  -- No key is below `lo`, and none below the one before it.
  abbrev pub IsSortedFrom : ℕ → List A → Type 0
  IsSortedFrom lo [] = Unit {0}
  IsSortedFrom lo (x ∷ xs) = (lo ≤ key x) × IsSortedFrom (key x) xs

  insert-IsSortedFrom :
      (lo : ℕ) (x : A) (xs : List A)
      → lo ≤ key x
      → IsSortedFrom lo xs
      → IsSortedFrom lo (insert x xs)
  unfolding insert
  insert-IsSortedFrom lo x [] h s = (h, tt)
  insert-IsSortedFrom lo x (y ∷ ys) h s = elim (Bool-cases (leb (key x) (key y))) [
    | inl e ↦ rw e (h, (leb→le _ _ e, s.1))
    | inr e ↦ rw e (s.0, insert-IsSortedFrom (key y) x ys (omega (arith, leb→lt _ _ e)) s.1)
  ]

  pub sort_by_key-IsSortedFrom : (xs : List A) → IsSortedFrom 0 (sort_by_key xs)
  unfolding sort_by_key
  sort_by_key-IsSortedFrom [] = tt
  sort_by_key-IsSortedFrom (x ∷ xs) =
      insert-IsSortedFrom 0 x _ (omega arith) (sort_by_key-IsSortedFrom xs)

  length-insert : (x : A) (xs : List A) → length (insert x xs) ≡ suc (length xs)
  unfolding insert
  length-insert x [] = refl
  length-insert x (y ∷ ys) = ground (arith, length-insert x ys)

  pub length-sort_by_key : (xs : List A) → length (sort_by_key xs) ≡ length xs
  unfolding sort_by_key
  length-sort_by_key [] = refl
  length-sort_by_key (x ∷ xs) = length-insert x _ ∙ ap suc (length-sort_by_key xs)

  insert-perm : (x : A) (xs : List A) → Perm (insert x xs) (x ∷ xs)
  unfolding insert
  insert-perm x [] = Perm.refl _
  insert-perm x (y ∷ ys) = elim (Bool-cases (leb (key x) (key y))) [
    | inl e ↦ rw e (Perm.refl _)
    | inr e ↦ rw e (Perm.trans (Perm.cons y (insert-perm x ys)) (Perm.swap x y ys))
  ]

  pub sort_by_key-perm : (xs : List A) → Perm (sort_by_key xs) xs
  unfolding sort_by_key
  sort_by_key-perm [] = Perm.refl _
  sort_by_key-perm (x ∷ xs) = Perm.trans (insert-perm x _) (Perm.cons x (sort_by_key-perm xs))

  insert_first : (x : A) (xs : List A) → IsSortedFrom (key x) xs → insert x xs ≡ x ∷ xs
  unfolding insert
  insert_first x [] s = refl
  insert_first x (y ∷ ys) s = ground arith

  -- Sorting a sorted list changes nothing.
  pub sort_by_key_sorted : (lo : ℕ) (xs : List A) → IsSortedFrom lo xs → sort_by_key xs ≡ xs
  unfolding sort_by_key
  sort_by_key_sorted lo [] s = refl
  sort_by_key_sorted lo (x ∷ xs) s =
      ap (insert x) (sort_by_key_sorted (key x) xs s.1) ∙ insert_first x xs s.1

  module _ (P : A → Type 0) where
    insert-All : (x : A) (xs : List A) → P x → All P xs → All P (insert x xs)
    unfolding insert
    insert-All x [] h hs = (h, tt)
    insert-All x (y ∷ ys) h hs = elim (Bool-cases (leb (key x) (key y))) [
      | inl e ↦ rw e (h, hs)
      | inr e ↦ rw e (hs.0, insert-All x ys h hs.1)
    ]

    pub sort_by_key-All : (xs : List A) → All P xs → All P (sort_by_key xs)
    unfolding sort_by_key
    sort_by_key-All [] hs = tt
    sort_by_key-All (x ∷ xs) hs = insert-All x _ hs.0 (sort_by_key-All xs hs.1)

-- `Iterator::filter`
unfoldable pub filter : {A : Type 0} → (A → Bool) → List A → List A
filter q [] = []
filter q (x ∷ xs) = if q x then x ∷ filter q xs else filter q xs

module _ {A : Type 0} (key : A → ℕ) (q : A → Bool) where
  raise : (lo hi : ℕ) (xs : List A) → lo ≤ hi → IsSortedFrom key hi xs → IsSortedFrom key lo xs
  raise lo hi [] h s = tt
  raise lo hi (x ∷ xs) h s = (omega (arith, s.0), s.1)

  filter-IsSortedFrom :
      (lo : ℕ) (xs : List A) → IsSortedFrom key lo xs → IsSortedFrom key lo (filter q xs)
  unfolding filter
  filter-IsSortedFrom lo [] s = tt
  filter-IsSortedFrom lo (x ∷ xs) s = elim (Bool-cases (q x)) [
    | inl e ↦ rw e (s.0, filter-IsSortedFrom (key x) xs s.1)
    | inr e ↦ rw e (filter-IsSortedFrom lo xs (raise lo (key x) xs s.0 s.1))
  ]

  filter-insert :
      (lo : ℕ) (x : A) (xs : List A)
      → IsSortedFrom key lo xs
      → filter q (insert key x xs) ≡ (if q x then insert key x (filter q xs) else filter q xs)
  unfolding filter insert
  filter-insert lo x [] s = refl
  filter-insert lo x (y ∷ ys) s = elim (Bool-cases (leb (key x) (key y))) [
    | inl e ↦ rw (
      e,
      insert_first key x (filter q (y ∷ ys))
          (filter-IsSortedFrom (key x) (y ∷ ys) (leb→le _ _ e, s.1)),
    )
    | inr e ↦ elim (Bool-cases (q y)) [
      | inl k ↦ elim (Bool-cases (q x)) [
        | inl m ↦ rw (e, k, m, filter-insert (key y) x ys s.1, m, e)
        | inr m ↦ rw (e, k, m, filter-insert (key y) x ys s.1, m)
      ]
      | inr k ↦ rw (e, k, filter-insert (key y) x ys s.1)
    ]
  ]

  -- A stable sort and a filter commute.
  pub filter-sort_by_key :
      (xs : List A) → filter q (sort_by_key key xs) ≡ sort_by_key key (filter q xs)
  unfolding filter sort_by_key
  filter-sort_by_key [] = refl
  filter-sort_by_key (x ∷ xs) =
      filter-insert 0 x (sort_by_key key xs) (sort_by_key-IsSortedFrom key xs)
      ∙ (elim (Bool-cases (q x)) [
        | inl e ↦ rw e (ap (insert key x) (filter-sort_by_key xs))
        | inr e ↦ rw e (filter-sort_by_key xs)
      ])

pub map-sort_by_key :
    {A B : Type 0} (k : A → ℕ) (l : B → ℕ) (f : A → B) (xs : List A)
    → ((a : A) → l (f a) ≡ k a)
    → sort_by_key l (map f xs) ≡ map f (sort_by_key k xs)
unfolding sort_by_key
map-sort_by_key {A} k l f [] h = refl
map-sort_by_key {A} k l f (x ∷ xs) h =
    ap (insert l (f x)) (map-sort_by_key k l f xs h) ∙ map-insert (sort_by_key k xs)
  where
    map-insert : (ys : List A) → insert l (f x) (map f ys) ≡ map f (insert k x ys)
    map-insert [] = refl
    map-insert (y ∷ ys) = elim (Bool-cases (leb (k x) (k y))) [
      | inl e ↦ rw (e, h x, h y, e)
      | inr e ↦ rw (h x, h y, e) (ap (λ t. f y ∷ t) (map-insert ys))
    ]
