-- ===== src/Moq/InTrack/Order.antt =====
-- The readable streams stay ascending and without repetition.
use quiche_moq.Common.{
  ==_iff, Bool-cases, List, Option, [], arith, contains, false, if◌then◌else◌, inl, inr, ltb,
  ltb→le, ltb→lt, none, not, refl, some, suc, true, ℕ, ◌%◌, ◌&&◌, ◌+◌, ◌<◌, ◌==◌, ◌^◌, ◌||◌, ◌∷◌,
  ◌≡◌, ◌≢◌, ◌≤◌,
}
use mathlib.Core.Option
use quiche_moq.Moq.InTrack.{
  InTrack, current_stream, fin_stream, finish, insert, mark_stream_readable, remove,
}

-- Every id is above the one before it.
abbrev pub IsAscendingFrom : ℕ → List ℕ → Type 0
IsAscendingFrom lo [] = Unit {0}
IsAscendingFrom lo (x ∷ xs) = (lo ≤ x) × IsAscendingFrom (suc x) xs

abbrev pub IsOrdered : InTrack → Type 0
IsOrdered t = IsAscendingFrom 0 t.readable_streams

insert-IsAscendingFrom :
    (lo id : ℕ) (xs : List ℕ) → lo ≤ id → IsAscendingFrom lo xs → IsAscendingFrom lo (insert id xs)
unfolding insert
insert-IsAscendingFrom lo id [] h s = (h, tt)
insert-IsAscendingFrom lo id (x ∷ xs) h s = elim (Bool-cases (x == id)) [
  | inl e ↦ rw e s
  | inr e ↦ elim (Bool-cases (ltb id x)) [
    | inl k ↦ rw (e, k) (h, (ltb→lt _ _ k, s.1))
    | inr k ↦
        let differ : x ≢ id = λ z. cc ((==_iff x id).1 z, e) in
        rw (e, k)
          (s.0, insert-IsAscendingFrom (suc x) id xs (omega (arith, ltb→le _ _ k, differ)) s.1)
  ]
]

contains-insert :
    (id other : ℕ) (xs : List ℕ)
    → contains (insert id xs) other ≡ (id == other || contains xs other)
unfolding insert
contains-insert id other [] = refl
contains-insert id other (x ∷ xs) = ground (arith, contains-insert id other xs)

above : (lo id : ℕ) (xs : List ℕ) → IsAscendingFrom lo xs → id < lo → contains xs id ≡ false
above lo id [] s h = refl
above lo id (x ∷ xs) s h = ground (arith, above (suc x) id xs s.1 (omega (arith, s.0, h)), s.0)

-- What is left when an id is taken out, or nothing where it is not there.
abbrev Removed : ℕ → ℕ → List ℕ → Option (List ℕ) → Type 0
Removed lo id xs none = contains xs id ≡ false
Removed lo id xs (some ys) =
    IsAscendingFrom lo ys
    × (contains xs id ≡ true)
    × ((other : ℕ) → contains ys other ≡ (contains xs other && not (id == other)))

raise : (lo hi : ℕ) (xs : List ℕ) → lo ≤ hi → IsAscendingFrom hi xs → IsAscendingFrom lo xs
raise lo hi [] h s = tt
raise lo hi (x ∷ xs) h s = (omega (arith, s.0), s.1)

remove_facts : (lo id : ℕ) (xs : List ℕ) → IsAscendingFrom lo xs → Removed lo id xs (remove id xs)
unfolding remove
remove_facts lo id [] s = refl
remove_facts lo id (x ∷ xs) s = elim (Bool-cases (x == id)) [
  | inl e ↦
      rw e (
        raise lo (suc x) xs (omega (arith, s.0)) s.1,
        rw e,
        λ other. here ((==_iff x id).0 e) other,
      )
  | inr e ↦ rw e (later e (remove id xs) (remove_facts (suc x) id xs s.1))
]
  where
    here :
        x ≡ id
        → (other : ℕ) → contains xs other ≡ ((x == other || contains xs other) && not (id == other))
    here z other = elim (Bool-cases (id == other)) [
      | inl k ↦
          let same = (==_iff id other).0 k in
          ground (arith, k, above (suc x) other xs s.1 (omega (arith, z, same)))
      | inr k ↦ ground (arith, k, z)
    ]

    later :
        ((x == id) ≡ false)
        → (r : Option (List ℕ)) → Removed (suc x) id xs r
        → Removed lo id (x ∷ xs) (Option.map (λ ys. x ∷ ys) r)
    later e none h = rw e h
    later e (some ys) h = ((s.0, h.0), rw e h.1, λ other. ground (arith, e, h.2 other))

-- On a track whose readable streams are strictly ascending, mark_stream_readable keeps them so, and
-- exactly that stream is readable in addition to those that were.
pub mark_stream_readable-IsOrdered :
    (id : ℕ) (t : InTrack)
    → IsOrdered t
    → IsOrdered (mark_stream_readable id t)
      × ((other : ℕ)
          → contains (mark_stream_readable id t).readable_streams other
            ≡ (id == other || contains t.readable_streams other))
unfolding mark_stream_readable
mark_stream_readable-IsOrdered id t s = (
  insert-IsAscendingFrom 0 id t.readable_streams (omega arith) s,
  λ other. contains-insert id other t.readable_streams,
)

least :
    (lo x other : ℕ) (xs : List ℕ)
    → IsAscendingFrom lo (x ∷ xs)
    → contains (x ∷ xs) other ≡ true
    → x ≤ other
least lo x other [] s h = ground arith
least lo x other (y ∷ ys) s h = elim (Bool-cases (x == other)) [
  | inl e ↦ omega (arith, (==_iff x other).0 e)
  | inr e ↦ omega (arith, least (suc x) y other ys s.1 (rw e at h), s.1.0)
]

-- The stream that is read from is the readable one with the smallest id.
pub current_stream_least :
    (t : InTrack) (x other : ℕ)
    → IsOrdered t
    → current_stream t ≡ some x
    → contains t.readable_streams other ≡ true
    → x ≤ other
unfolding current_stream
current_stream_least t x other s e h = cases t.readable_streams s e h
  where
    the_first : {y : ℕ} → some y ≡ some x → y ≡ x
    the_first e = cc e

    cases :
        (xs : List ℕ)
        → IsAscendingFrom 0 xs
        → elim xs [ [] ↦ none | x ∷ xs ↦ some x ] ≡ some x
        → contains xs other ≡ true
        → x ≤ other
    cases [] s e h = cc h
    cases (y ∷ ys) s e h = rw (← the_first e) (least 0 y other ys s h)

-- On a track whose readable streams are strictly ascending, fin_stream keeps them so, takes out
-- exactly that stream, and counts it, on 64 bits, if and only if it was readable.
pub fin_stream-IsOrdered :
    (id : ℕ) (t : InTrack)
    → IsOrdered t
    → IsOrdered (fin_stream id t)
      × ((other : ℕ)
          → contains (fin_stream id t).readable_streams other
            ≡ (contains t.readable_streams other && not (id == other)))
      × ((fin_stream id t).finned_streams ≡ (
          if contains t.readable_streams id
          then (t.finned_streams + 1) % 2 ^ 64
          else t.finned_streams))
unfolding fin_stream finish
fin_stream-IsOrdered id t s =
    cases (remove id t.readable_streams) (remove_facts 0 id t.readable_streams s)
  where
    gone :
        contains t.readable_streams id ≡ false
        → (other : ℕ)
        → contains t.readable_streams other
          ≡ (contains t.readable_streams other && not (id == other))
    gone h other = elim (Bool-cases (id == other)) [
      | inl k ↦ let same = (==_iff id other).0 k in rw (k, ← same, h)
      | inr k ↦ ground (arith, k)
    ]

    cases :
        (r : Option (List ℕ))
        → Removed 0 id t.readable_streams r
        → IsOrdered (finish t r)
          × ((other : ℕ)
              → contains (finish t r).readable_streams other
                ≡ (contains t.readable_streams other && not (id == other)))
          × ((finish t r).finned_streams ≡ (
              if contains t.readable_streams id
              then (t.finned_streams + 1) % 2 ^ 64
              else t.finned_streams))
    cases none h = (s, gone h, rw h)
    cases (some xs) h = (h.0, h.2, rw (h.1))
