-- ===== src/Moq/Session/Reading.antt =====
-- A track is read to an end: the loop over its streams ends.
use quiche_moq.Common.{
  ==_iff, Bool-cases, List, Option, [], ap, arith, if◌then◌else◌, inl, inr, length, none, refl,
  some, subst, suc, sym, true, zero, ℕ, ◌+◌, ◌<◌, ◌==◌, ◌∙◌, ◌∷◌, ◌≡◌, ◌≢◌, ◌≤◌,
}
use quiche_moq.Common.Map.{Each, get, get-modify, modify, remove-Each}
use quiche_moq.Common.Outcome.{Outcome}
use quiche_moq.Octets.{Octets}
use quiche_moq.ShortBuf.Queue.{IsValid}
use quiche_moq.Wire.Subgroup.{SubgroupHeader}
use quiche_moq.Wire.Object.{ObjectHeader}
use quiche_moq.Webtransport.{IsReceiver, Transport}
use quiche_moq.Moq.Error.{Error}
use quiche_moq.Moq.Action.{Action, Reply, ok, err, panicked, unfinished}
use quiche_moq.Moq.InStream.{InStream, buf_len}
use quiche_moq.Moq.InStream
use quiche_moq.Moq.InStream.Headers.{read_obj_hdr_total}
use quiche_moq.Moq.InTrack.{InTrack, current_stream, fin_stream, finish, is_fully_done}
use quiche_moq.Moq.InTrack
use quiche_moq.Moq.Session.{Session}
use quiche_moq.Moq.Session.Receive.{
  after_header, finish_stream, next_stream, read_obj_hdr, read_stream, read_streams,
}
use quiche_moq.Moq.Session.Sound.Receive.{next_stream_current}

-- Every stream of the session is one whose headers are read in `buf_len` rounds.
abbrev pub Ready : Session → Type 0
Ready s =
    Each
      (λ id t.
        (h : SubgroupHeader) × (t.subgroup_header ≡ some h)
        × (h.ty ≡ 0x4)
        × IsValid t.buf
        × (length t.buf.buf ≡ buf_len))
      s.in_streams

-- The number of streams that a track may be read from.
abbrev count : Option InTrack → ℕ
count x = elim x [ none ↦ 0 | some track ↦ length track.readable_streams ]

unfoldable pub streams_of : ℕ → Session → ℕ
streams_of a s = count (get s.in_tracks a)

-- The current stream is the first, and is what `fin_stream` takes out.
fin_stream-length :
    (id : ℕ) (track : InTrack)
    → current_stream track ≡ some id
    → suc (length (fin_stream id track).readable_streams) ≡ length track.readable_streams
unfolding current_stream fin_stream finish InTrack.remove
fin_stream-length id track e = cases track.readable_streams e
  where
    cases :
        (xs : List ℕ)
        → elim xs as (λ _. Option ℕ) [ [] ↦ none | x ∷ xs ↦ some x ] ≡ some id
        → suc (length (finish track (InTrack.remove id xs)).readable_streams) ≡ length xs
    cases [] e = absurd (cc e)
    cases (x ∷ xs) e =
        let same : x ≡ id = cc e in
        let here : (x == id) ≡ true = (==_iff x id).1 same in rw here refl

finish_stream-length :
    (a id : ℕ) (track : InTrack) (s : Session)
    → get s.in_tracks a ≡ some track
    → current_stream track ≡ some id
    → suc (streams_of a (finish_stream a id s)) ≡ streams_of a s
unfolding streams_of finish_stream
finish_stream-length a id track s e c =
    let there : get (modify a (fin_stream id) s.in_tracks) a ≡ some (fin_stream id track) =
      get-modify a a (fin_stream id) s.in_tracks ∙ rw ((==_iff a a).1 refl, e) refl in
    ap (λ x. suc (count x)) there ∙ fin_stream-length id track c ∙ sym (ap count e)

next_stream_finished : (track : InTrack) → next_stream track ≢ unfinished
unfolding next_stream
next_stream_finished track e = cases (current_stream track) e
  where
    cases :
        (x : Option ℕ)
        → elim x as (λ _. Reply ℕ) [
          | some id ↦ ok id
          | none ↦ if is_fully_done track then err Error.fin else err Error.done
        ]
          ≢ unfinished
    cases (some i) e = cc e
    cases none e = elim (Bool-cases (is_fully_done track)) [
      | inl z ↦ cc (rw z at e)
      | inr z ↦ cc (rw z at e)
    ]

module _ {S : Type 0} where
  after_header-finished :
      (again : Action (Session × S) ObjectHeader) (a id : ℕ) (s : Session) (c : S)
      (r : InStream × S × Outcome Error ObjectHeader)
      → (again (finish_stream a id s, r.1)).1 ≢ unfinished
      → (after_header again a id (s, c) (some r)).1 ≢ unfinished
  unfolding after_header
  after_header-finished again a id s c (u, d, Outcome.ok v) k e = cc e
  after_header-finished again a id s c (u, d, Outcome.err Error.fin) k e = k e
  after_header-finished again a id s c (u, d, Outcome.err Error.partial_control_message) k e = cc e
  after_header-finished again a id s c (u, d, Outcome.err Error.unimplemented) k e = cc e
  after_header-finished again a id s c (u, d, Outcome.err Error.done) k e = cc e
  after_header-finished again a id s c (u, d, Outcome.err Error.insufficient_capacity) k e = cc e
  after_header-finished again a id s c (u, d, Outcome.err Error.object_to_long) k e = cc e
  after_header-finished again a id s c (u, d, Outcome.err Error.unfinished_payload) k e = cc e
  after_header-finished again a id s c (u, d, Outcome.err Error.exceeded_payload) k e = cc e
  after_header-finished again a id s c (u, d, Outcome.err Error.request_blocked) k e = cc e
  after_header-finished again a id s c (u, d, Outcome.err (Error.wt i)) k e = cc e
  after_header-finished again a id s c (u, d, Outcome.err (Error.wire i)) k e = cc e
  after_header-finished again a id s c (u, d, Outcome.panicked) k e = cc e

module _ {S : Type 0} (wt : Transport S) (P : S → Type 0) (left : S → ℕ) (w : IsReceiver wt P left)
    (fuel : ℕ) ⦃o : Octets⦄ where
  read_streams_total :
      (rounds a : ℕ) (s : Session) (c : S)
      → P c
      → buf_len + left c < fuel
      → Ready s
      → streams_of a s < rounds
      → (read_streams wt fuel rounds a (s, c)).1 ≢ unfinished
  unfolding read_streams read_stream
  read_streams_total zero a s c p n r l z = absurd (omega (arith, l))
  read_streams_total (suc rounds) a s c p n r l z =
      found
        (λ id e d q k.
          read_streams_total rounds a (finish_stream a id s) d q (omega (arith, n, k))
            (remove-Each _ id s.in_streams r) (omega (arith, e, l)))
        (get s.in_tracks a) refl z
    where
      again : Action (Session × S) ObjectHeader
      again = read_streams wt fuel rounds a

      Again : Type 0
      Again =
          (id : ℕ)
          → suc (streams_of a (finish_stream a id s)) ≡ streams_of a s
          → (d : S) → P d
          → left d ≤ left c
          → (again (finish_stream a id s, d)).1 ≢ unfinished

      at_stream :
          Again
          → (track : InTrack) → get s.in_tracks a ≡ some track
          → (id : ℕ) → current_stream track ≡ some id
          → (y : Option InStream) → get s.in_streams id ≡ y
          → (elim y as (λ _. (Session × S) × Reply ObjectHeader) [
            | none ↦ ((s, c), panicked)
            | some t ↦ after_header again a id (s, c) (InStream.read_obj_hdr wt fuel t c)
          ]).1
            ≢ unfinished
      at_stream k track e id f none g z = cc z
      at_stream k track e id f (some t) g z =
          let (h, q, ty, v, b) = r id t g in
          let (x, y, p', d) = read_obj_hdr_total wt P left h fuel t c w p n q ty v b in
          subst (λ x. (after_header again a id (s, c) x).1 ≢ unfinished) (sym y)
            (after_header-finished again a id s c x
              (k id (finish_stream-length a id track s e f) x.1 p' d))
            z

      at_track :
          Again
          → (track : InTrack) → get s.in_tracks a ≡ some track
          → (x : Reply ℕ) → next_stream track ≡ x
          → x ≢ unfinished
          → (read_stream wt fuel again a x (s, c)).1 ≢ unfinished
      at_track k track e (ok id) f n z =
          at_stream k track e id (next_stream_current track id f) (get s.in_streams id) refl z
      at_track k track e (err i) f n z = cc z
      at_track k track e panicked f n z = cc z
      at_track k track e unfinished f n z = n refl

      found :
          Again
          → (x : Option InTrack) → get s.in_tracks a ≡ x
          → (elim x as (λ _. (Session × S) × Reply ObjectHeader) [
            | none ↦ ((s, c), err Error.done)
            | some track ↦ read_stream wt fuel again a (next_stream track) (s, c)
          ]).1
            ≢ unfinished
      found k none e z = cc z
      found k (some track) e z =
          at_track k track e (next_stream track) refl (next_stream_finished track) z

  -- Over a transport whose recv_stream, in a set of states that it keeps, reports no more bytes
  -- than the slice has and answers a slice with room without a byte only as often as a number left
  -- says, which never grows: in a session whose streams have subgroup type 0x4 and valid buffers of
  -- 100 bytes, both loops of read_obj_hdr end: with more rounds on a stream than 100 and that
  -- number, and one round more than the track has readable streams, for every track.
  pub read_tracks_total :
      (a : ℕ) (s : Session) (c : S)
      → P c
      → buf_len + left c < fuel
      → Ready s
      → (read_obj_hdr wt fuel (streams_of a s + 1) a (s, c)).1 ≢ unfinished
  unfolding read_obj_hdr
  read_tracks_total a s c p n r = read_streams_total (streams_of a s + 1) a s c p n r (omega arith)
