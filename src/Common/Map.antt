-- ===== src/Common/Map.antt =====
-- `HashMap<u64, V>` as an association list with one entry for a key. The order of the entries is one
-- that the iteration of the map may take.
use quiche_moq.Common.{
  ==_iff, Bool, Bool-cases, List, Option, [], arith, false, if◌then◌else◌, inl, inr, none, refl,
  some, subst, true, ℕ, ◌==◌, ◌||◌, ◌∷◌, ◌≡◌, ◌≢◌,
}
use mathlib.Core.Option

abbrev pub Map {ℓ} : Type ℓ → Type ℓ
Map V = List (ℕ × V)

module _ {ℓ} {V : Type ℓ} where
  unfoldable pub get : Map V → ℕ → Option V
  get [] k = none
  get ((j, v) ∷ m) k = if j == k then some v else get m k

  unfoldable pub contains_key : Map V → ℕ → Bool
  contains_key [] k = false
  contains_key ((j, v) ∷ m) k = j == k || contains_key m k

  unfoldable pub insert : ℕ → V → Map V → Map V
  insert k v [] = (k, v) ∷ []
  insert k v ((j, w) ∷ m) = let rest = insert k v m in if j == k then (k, v) ∷ m else (j, w) ∷ rest

  unfoldable pub remove : ℕ → Map V → Map V
  remove k [] = []
  remove k ((j, w) ∷ m) = let rest = remove k m in if j == k then rest else (j, w) ∷ rest

  -- `get_mut` and a change of what it finds.
  unfoldable pub modify : ℕ → (V → V) → Map V → Map V
  modify k f [] = []
  modify k f ((j, w) ∷ m) =
      let rest = modify k f m in if j == k then (j, f w) ∷ rest else (j, w) ∷ rest

  -- `retain`
  unfoldable pub retain : (ℕ → V → Bool) → Map V → Map V
  retain p [] = []
  retain p ((j, w) ∷ m) = let rest = retain p m in if p j w then (j, w) ∷ rest else rest

  -- The keys of the entries that pass a test.
  unfoldable pub keys_where : (V → Bool) → Map V → List ℕ
  keys_where p [] = []
  keys_where p ((j, w) ∷ m) = let rest = keys_where p m in if p w then j ∷ rest else rest

  pub get-insert :
      (k j : ℕ) (v : V) (m : Map V) → get (insert k v m) j ≡ (if k == j then some v else get m j)
  unfolding get insert
  get-insert k j v [] = refl
  get-insert k j v ((i, w) ∷ m) = ground (arith, get-insert k j v m)

  pub get-remove : (k j : ℕ) (m : Map V) → get (remove k m) j ≡ (if k == j then none else get m j)
  unfolding get remove
  get-remove k j [] = ground arith
  get-remove k j ((i, w) ∷ m) = ground (arith, get-remove k j m)

  pub get-modify :
      (k j : ℕ) (f : V → V) (m : Map V)
      → get (modify k f m) j ≡ (if k == j then Option.map f (get m j) else get m j)
  unfolding get modify
  get-modify k j f [] = ground arith
  get-modify k j f ((i, w) ∷ m) = ground (arith, get-modify k j f m)

  pub contains_key-get :
      (m : Map V) (k : ℕ)
      → contains_key m k ≡ elim (get m k) as (λ _. Bool) [ none ↦ false | some v ↦ true ]
  unfolding get contains_key
  contains_key-get [] k = refl
  contains_key-get ((i, w) ∷ m) k = ground (arith, contains_key-get m k)

  pub get-insert_self : (k : ℕ) (v : V) (m : Map V) → get (insert k v m) k ≡ some v
  get-insert_self k v m = ground (arith, get-insert k k v m)

  pub get-remove_self : (k : ℕ) (m : Map V) → get (remove k m) k ≡ none
  get-remove_self k m = ground (arith, get-remove k k m)

  pub get-insert_ne : (k j : ℕ) (v : V) (m : Map V) → k ≢ j → get (insert k v m) j ≡ get m j
  get-insert_ne k j v m h = ground (arith, get-insert k j v m)

  pub get-remove_ne : (k j : ℕ) (m : Map V) → k ≢ j → get (remove k m) j ≡ get m j
  get-remove_ne k j m h = ground (arith, get-remove k j m)

  -- A property of all entries, by their keys.
  abbrev pub Each {κ} : (ℕ → V → Type κ) → Map V → Type (ℓ ⊔ κ)
  Each P m = (k : ℕ) (v : V) → get m k ≡ some v → P k v

  module _ {κ} (P : ℕ → V → Type κ) where
    pub insert-Each : (k : ℕ) (v : V) (m : Map V) → Each P m → P k v → Each P (insert k v m)
    insert-Each k v m h p j w e = elim (Bool-cases (k == j)) [
      | inl t ↦
          let same : k ≡ j = (==_iff k j).0 t in
          let value : v ≡ w = cc (rw (get-insert k j v m, t) at e) in
          subst (λ i. P i w) same (subst (P k) value p)
      | inr t ↦ h j w (rw (get-insert k j v m, t) at e)
    ]

    pub remove-Each : (k : ℕ) (m : Map V) → Each P m → Each P (remove k m)
    remove-Each k m h j w e = elim (Bool-cases (k == j)) [
      | inl t ↦ absurd (cc (rw (get-remove k j m, t) at e))
      | inr t ↦ h j w (rw (get-remove k j m, t) at e)
    ]

  -- A property of the entries one by one, those with the key of one before them too.
  abbrev pub Every {κ} : (ℕ → V → Type κ) → Map V → Type κ
  Every P [] = Unit
  Every P ((k, v) ∷ m) = P k v × Every P m

  module _ {κ} (P : ℕ → V → Type κ) where
    pub insert-Every : (k : ℕ) (v : V) (m : Map V) → Every P m → P k v → Every P (insert k v m)
    unfolding insert
    insert-Every k v [] h p = (p, tt)
    insert-Every k v ((j, w) ∷ m) h p = elim (Bool-cases (j == k)) [
      | inl t ↦ rw t (p, h.1)
      | inr t ↦ rw t (h.0, insert-Every k v m h.1 p)
    ]

    pub remove-Every : (k : ℕ) (m : Map V) → Every P m → Every P (remove k m)
    unfolding remove
    remove-Every k [] h = tt
    remove-Every k ((j, w) ∷ m) h = elim (Bool-cases (j == k)) [
      | inl t ↦ rw t (remove-Every k m h.1)
      | inr t ↦ rw t (h.0, remove-Every k m h.1)
    ]

    pub retain-Every : (p : ℕ → V → Bool) (m : Map V) → Every P m → Every P (retain p m)
    unfolding retain
    retain-Every p [] h = tt
    retain-Every p ((j, w) ∷ m) h = elim (Bool-cases (p j w)) [
      | inl t ↦ rw t (h.0, retain-Every p m h.1)
      | inr t ↦ rw t (retain-Every p m h.1)
    ]

  -- What is found after a change was there before it.
  pub get-modify_found :
      (k j : ℕ) (f : V → V) (m : Map V) (w : V)
      → get (modify k f m) j ≡ some w
      → (v : V) × (get m j ≡ some v) × (w ≡ (if k == j then f v else v))
  get-modify_found k j f m w e = elim (Bool-cases (k == j)) [
    | inl z ↦ found z (get m j) refl (rw (get-modify k j f m, z) at e)
    | inr z ↦ rw z (w, (rw (get-modify k j f m, z) at e), refl)
  ]
    where
      found :
          ((k == j) ≡ true)
          → (x : Option V) → get m j ≡ x
          → Option.map f x ≡ some w
          → (v : V) × (get m j ≡ some v) × (w ≡ (if k == j then f v else v))
      found z none h e = absurd (cc e)
      found z (some v) h e = (v, h, rw z (cc e))
