-- ===== src/Moq/Session/Linked.antt =====
-- The streams that tracks read from, and those that wait for their track, are streams of the session
-- whose header names that track.
use quiche_moq.Common.{
  ==_iff, Bool, Bool-cases, Option, ap, arith, contains, false, if◌then◌else◌, inl, inr, none, not,
  refl, some, subst, sym, true, ℕ, ◌&&◌, ◌==◌, ◌||◌, ◌∙◌, ◌≡◌, ◌≢◌, ◌⊎◌,
}
use quiche_moq.Common.Map.{
  Each, Map, get, get-insert, get-insert_ne, get-modify_found, get-remove, get-remove_ne,
  get-remove_self, insert, insert-Each, modify, remove, remove-Each,
}
use quiche_moq.Moq.InStream.{InStream}
use quiche_moq.Moq.InStream.Kept.{alias}
use quiche_moq.Moq.InTrack.{InTrack, fin_stream, mark_done, mark_stream_readable}
use quiche_moq.Moq.InTrack
use quiche_moq.Moq.InTrack.Order.{IsOrdered, fin_stream-IsOrdered, mark_stream_readable-IsOrdered}
use quiche_moq.Moq.Session.{Session}
use quiche_moq.Moq.Session.Handle.{adopt}

unfoldable pub alias_at : Map InStream → ℕ → Option ℕ
unfolding alias
alias_at m id = elim (get m id) [ none ↦ none | some t ↦ alias t ]

abbrev pub Holds : Map InStream → ℕ → InTrack → Type 0
Holds streams a t =
    IsOrdered t × ((id : ℕ) → contains t.readable_streams id ≡ true → alias_at streams id ≡ some a)

pub record IsLinked (streams : Map InStream) (tracks : Map InTrack) (pending : Map ℕ) : Type 0 where
  pub holds : Each (Holds streams) tracks
  pub waits : Each (λ a id. alias_at streams id ≡ some a) pending
  pub apart : Each (λ a t. get pending a ≡ none) tracks

abbrev pub Linked : Session → Type 0
Linked s = IsLinked s.in_streams s.in_tracks s.pending_streams

pub alias_at-insert :
    (id j : ℕ) (t : InStream) (m : Map InStream)
    → alias_at (insert id t m) j ≡ (if id == j then alias t else alias_at m j)
unfolding alias_at
alias_at-insert id j t m = ground (arith, get-insert id j t m)

alias_at-remove_ne :
    (id j : ℕ) (m : Map InStream) → id ≢ j → alias_at (remove id m) j ≡ alias_at m j
unfolding alias_at
alias_at-remove_ne id j m h =
    ap (λ (x : Option InStream). elim x as (λ _. Option ℕ) [ none ↦ none | some t ↦ alias t ])
      (get-remove_ne id j m h)

some_eq : {a b : ℕ} → some a ≡ some b → a ≡ b
some_eq e = cc e

or_true : (a b : Bool) → (a || b) ≡ true → (a ≡ true) ⊎ (b ≡ true)
or_true true b e = inl refl
or_true false b e = inr e

and_true : (a b : Bool) → (a && b) ≡ true → (a ≡ true) × (b ≡ true)
and_true true b e = (refl, e)
and_true false b e = absurd (cc e)

false_of : (a : Bool) → not a ≡ true → a ≡ false
false_of true e = absurd (cc e)
false_of false e = refl

module _ (streams : Map InStream) (tracks : Map InTrack) (pending : Map ℕ)
    (w : IsLinked streams tracks pending) where
  -- A stream that is put back, or that is new, says what was known of it.
  pub put-IsLinked :
      (id : ℕ) (t : InStream)
      → ((a : ℕ) → alias_at streams id ≡ some a → alias t ≡ some a)
      → IsLinked (insert id t streams) tracks pending
  put-IsLinked id t same = record {
    holds = λ a track e. ((w.holds a track e).0, λ j h. still j a ((w.holds a track e).1 j h));
    waits = λ a j e. still j a (w.waits a j e);
    apart = w.apart;
  }
    where
      still : (j a : ℕ) → alias_at streams j ≡ some a → alias_at (insert id t streams) j ≡ some a
      still j a e = elim (Bool-cases (id == j)) [
        | inl z ↦
            let here = (==_iff id j).0 z in
            rw (alias_at-insert id j t streams, z) (same a (rw here e))
        | inr z ↦ rw (alias_at-insert id j t streams, z) e
      ]

  pub mark-IsLinked :
      (a id : ℕ) (track : InTrack)
      → get tracks a ≡ some track
      → alias_at streams id ≡ some a
      → IsLinked streams (insert a (mark_stream_readable id track) tracks) pending
  mark-IsLinked a id track e l =
      let (o, h) = w.holds a track e in
      let (o', added) = mark_stream_readable-IsOrdered id track o in
      let held : Holds streams a (mark_stream_readable id track) = (
        o',
        λ j c. elim (or_true (id == j) _ (sym (added j) ∙ c)) [
          | inl z ↦ subst (λ j. alias_at streams j ≡ some a) ((==_iff id j).0 z) l
          | inr z ↦ h j z
        ],
      ) in
      record {
        holds = insert-Each (Holds streams) a _ tracks w.holds held;
        waits = w.waits;
        apart = insert-Each (λ a t. get pending a ≡ none) a _ tracks w.apart (w.apart a track e);
      }

  pub wait-IsLinked :
      (a id : ℕ)
      → get tracks a ≡ none
      → alias_at streams id ≡ some a
      → IsLinked streams tracks (insert a id pending)
  wait-IsLinked a id e l = record {
    holds = w.holds;
    waits = insert-Each (λ a id. alias_at streams id ≡ some a) a id pending w.waits l;
    apart = λ b t h.
        let differ : a ≢ b = λ z. cc (subst (λ b. get tracks b ≡ some t) (sym z) h, e) in
        get-insert_ne a b id pending differ ∙ w.apart b t h;
  }

  pub adopt-IsLinked :
      (a : ℕ)
      → IsLinked streams
          (insert a (adopt a (InTrack.new a) (get pending a)) tracks)
          (remove a pending)
  unfolding adopt InTrack.new
  adopt-IsLinked a = record {
    holds = insert-Each (Holds streams) a _ tracks w.holds (held (get pending a) (w.waits a));
    waits = remove-Each (λ a id. alias_at streams id ≡ some a) a pending w.waits;
    apart =
        insert-Each (λ b t. get (remove a pending) b ≡ none) a _ tracks
          (λ b t h. elim (Bool-cases (a == b)) [
            | inl z ↦ rw (get-remove a b pending, z) refl
            | inr z ↦ rw (get-remove a b pending, z) (w.apart b t h)
          ])
          (get-remove_self a pending);
  }
    where
      empty : Holds streams a (InTrack.new a)
      empty = (tt, λ id h. absurd (cc h))

      held :
          (x : Option ℕ)
          → ((id : ℕ) → x ≡ some id → alias_at streams id ≡ some a)
          → Holds streams a (adopt a (InTrack.new a) x)
      held none h = empty
      held (some id) h =
          let (o, added) = mark_stream_readable-IsOrdered id (InTrack.new a) empty.0 in
          (
            o,
            λ j c. elim (or_true (id == j) _ (sym (added j) ∙ c)) [
              | inl z ↦ subst (λ j. alias_at streams j ≡ some a) ((==_iff id j).0 z) (h id refl)
              | inr z ↦ empty.1 j z
            ],
          )

  -- A stream of the track ends.
  pub finish-IsLinked :
      (a id : ℕ) (track : InTrack)
      → get tracks a ≡ some track
      → contains track.readable_streams id ≡ true
      → IsLinked (remove id streams) (modify a (fin_stream id) tracks) pending
  finish-IsLinked a id track e c = record {
    holds = λ b t h.
        let (u, f, g) = get-modify_found a b (fin_stream id) tracks t h in
        subst (Holds (remove id streams) b) (sym g) (left b u f);
    waits = λ b j h.
        let differ : id ≢ j = λ z.
          let same : a ≡ b =
            some_eq (sym here ∙ subst (λ j. alias_at streams j ≡ some b) (sym z) (w.waits b j h)) in
          cc (subst (λ b. get pending b ≡ some j) (sym same) h, w.apart a track e) in
        alias_at-remove_ne id j streams differ ∙ w.waits b j h;
    apart =
        λ b t h. let (u, f, g) = get-modify_found a b (fin_stream id) tracks t h in w.apart b u f;
  }
    where
      here : alias_at streams id ≡ some a
      here = (w.holds a track e).1 id c

      left :
          (b : ℕ) (u : InTrack)
          → get tracks b ≡ some u
          → Holds (remove id streams) b (if a == b then fin_stream id u else u)
      left b u f = elim (Bool-cases (a == b)) [
        | inl z ↦
            let (o, taken, _) = fin_stream-IsOrdered id u (w.holds b u f).0 in
            rw z (
              o,
              λ j k.
                  let (was, other) =
                    and_true (contains u.readable_streams j) (not (id == j)) (sym (taken j) ∙ k) in
                  let differ : id ≢ j = λ y. cc ((==_iff id j).1 y, false_of (id == j) other) in
                  alias_at-remove_ne id j streams differ ∙ (w.holds b u f).1 j was,
            )
        | inr z ↦
            let apart : a ≢ b = λ y. cc ((==_iff a b).1 y, z) in
            rw z (
              (w.holds b u f).0,
              λ j k.
                  let differ : id ≢ j = λ y. apart (
                    some_eq (
                      sym here
                      ∙ subst (λ j. alias_at streams j ≡ some b) (sym y)
                          ((w.holds b u f).1 j k))) in
                  alias_at-remove_ne id j streams differ ∙ (w.holds b u f).1 j k,
            )
      ]

  pub done-IsLinked : (a n : ℕ) → IsLinked streams (modify a (mark_done n) tracks) pending
  unfolding mark_done
  done-IsLinked a n = record {
    holds = λ b t h.
        let (u, f, g) = get-modify_found a b (mark_done n) tracks t h in
        subst (Holds streams b) (sym g) (left b u f);
    waits = w.waits;
    apart = λ b t h. let (u, f, g) = get-modify_found a b (mark_done n) tracks t h in w.apart b u f;
  }
    where
      left :
          (b : ℕ) (u : InTrack)
          → get tracks b ≡ some u
          → Holds streams b (if a == b then mark_done n u else u)
      left b u f = elim (Bool-cases (a == b)) [
        | inl z ↦ rw z (w.holds b u f)
        | inr z ↦ rw z (w.holds b u f)
      ]
