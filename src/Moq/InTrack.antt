-- ===== src/Moq/InTrack.antt =====
-- quiche_moq/src/in_track.rs: the streams of a track that have something to read.
pub mod Order
use quiche_moq.Common.{
  Bool, List, Option, [], false, if◌then◌else◌, leb, ltb, map, none, some, true, ℕ, ◌%◌, ◌+◌, ◌==◌,
  ◌^◌, ◌∷◌,
}
use mathlib.Core.Option

pub record InTrack : Type 0 where
  pub track_alias : ℕ
  pub readable_streams : List ℕ
  pub finned_streams : ℕ
  pub expected_streams : Option ℕ

unfoldable pub new : ℕ → InTrack
new track_alias = record {
  track_alias = track_alias;
  readable_streams = [];
  finned_streams = 0;
  expected_streams = none;
}

unfoldable pub mark_done : ℕ → InTrack → InTrack
mark_done stream_count t = record t { expected_streams = some stream_count }

unfoldable pub is_fully_done : InTrack → Bool
is_fully_done t = elim t.expected_streams [ none ↦ false | some ec ↦ leb ec t.finned_streams ]

unfoldable pub readable : InTrack → Bool
readable t = elim t.readable_streams [ [] ↦ false | x ∷ xs ↦ true ]

-- `iter().position(|i| *i == id)` and `remove(pos)`, or nothing where there is no position.
unfoldable pub remove : ℕ → List ℕ → Option (List ℕ)
remove id [] = none
remove id (x ∷ xs) = if x == id then some xs else Option.map (λ ys. x ∷ ys) (remove id xs)

-- `if let Some(pos) = …`
unfoldable pub finish : InTrack → Option (List ℕ) → InTrack
finish t none = t
finish t (some xs) = record t {
  readable_streams = xs;
  finned_streams = (t.finned_streams + 1) % 2 ^ 64;
}

unfoldable pub fin_stream : ℕ → InTrack → InTrack
unfolding remove finish
fin_stream stream_id t = finish t (remove stream_id t.readable_streams)

-- `binary_search(&id)` on an ascending list, with `insert(pos, id)` at the place that it answers.
unfoldable pub insert : ℕ → List ℕ → List ℕ
insert id [] = id ∷ []
insert id (x ∷ xs) = if x == id then x ∷ xs else if ltb id x then id ∷ x ∷ xs else x ∷ insert id xs

unfoldable pub mark_stream_readable : ℕ → InTrack → InTrack
unfolding insert
mark_stream_readable stream_id t = record t {
  readable_streams = insert stream_id t.readable_streams;
}

unfoldable pub current_stream : InTrack → Option ℕ
current_stream t = elim t.readable_streams [ [] ↦ none | x ∷ xs ↦ some x ]
