-- ===== src/Moq/Session/Sound/Send.antt =====
-- Sending leaves a sound session sound.
use quiche_moq.Common.{Bool, List, Option, [], false, length, none, some, true, ℕ, ◌==◌}
use quiche_moq.Common.Map.{Map, get, insert, modify, remove}
use quiche_moq.Common.Outcome.{Outcome}
use quiche_moq.Octets.{Octets}
use quiche_moq.Wire.Version.{Version}
use quiche_moq.Wire.KeyValuePairs.{KeyValuePairs}
use quiche_moq.Webtransport.{Transport, Error as WtError}
use quiche_moq.Moq.Action.{
  Keeps, Reply, assert, bind-Keeps, ok, panicked, reply, then-Keeps, unwrap, unwrap-Keeps,
  assert-Keeps, unwrapped,
}
use quiche_moq.Moq.OutStream.{OutStream, Sent}
use quiche_moq.Moq.OutStream
use quiche_moq.Moq.OutTrack.{OutTrack}
use quiche_moq.Moq.Session.{Session}
use quiche_moq.Moq.Session.Send.{
  add_stream, current_of, drop_stream, fin_stream, need_new_stream, open_stream, or_capacity,
  reset_stream_code_delivery_timeout, reset_current_track_stream, send_obj, send_obj_hdr,
  send_obj_hdr_with, send_obj_pld, send_obj_with, set_current, shut_down, stream_of, switch_stream,
  timeout_stream, with_stream,
}
use quiche_moq.Moq.Session.Handle.{unwrap_or}
use quiche_moq.Moq.Session.Sound.Handle.{On}

-- What does not speak of the tracks and streams that are sent on is kept by what sends.
module _ (P : Session → Type 0)
    (out : (s : Session) (tracks : Map OutTrack) (streams : Map OutStream)
      → P s
      → P (record s { out_tracks = tracks; out_streams = streams })) where
  switched : (s : Session) (a : ℕ) (x : Option ℕ) → P s → P (set_current a x s)
  unfolding set_current
  switched s a x =
      out s (modify a (λ t. record t { current_stream_id = x }) s.out_tracks) s.out_streams

  added : (s : Session) (id a g h : ℕ) (v : Version) → P s → P (add_stream id a g h v s)
  unfolding add_stream
  added s id a g h v = out s s.out_tracks (insert id (OutStream.new id a g h v) s.out_streams)

  dropped : (s : Session) (id : ℕ) → P s → P (drop_stream id s)
  unfolding drop_stream
  dropped s id = out s s.out_tracks (remove id s.out_streams)

  module _ {S : Type 0} where
    with_stream-Keeps :
        {A : Type 0} (id : ℕ) (f : OutStream → S → Sent S A) → Keeps (On P) (with_stream id f)
    unfolding with_stream
    with_stream-Keeps {A} id f (s, c) p = cases (get s.out_streams id)
      where
        cases :
            (x : Option OutStream)
            → P
                (elim x as (λ _. (Session × S) × Reply A) [
                  | none ↦ ((s, c), panicked)
                  | some o ↦
                      let r = f o c in
                      ((record s { out_streams = insert id r.0 s.out_streams }, r.1), reply r.2)
                ]).0.0
        cases none = p
        cases (some o) = out s s.out_tracks (insert id (f o c).0 s.out_streams) p

    module _ (wt : Transport S) where
      open_stream-Keeps :
          (answer : Outcome WtError ℕ → Reply ℕ) → Keeps (On P) (open_stream wt answer)
      unfolding open_stream
      open_stream-Keeps answer t p = p

      stream_of-Keeps : (a : ℕ) (x : Option ℕ) → Keeps (On P) (stream_of wt a x)
      unfolding stream_of
      stream_of-Keeps a (some id) t p = p
      stream_of-Keeps a none t p =
          bind-Keeps (On P) (open_stream wt unwrapped) _ (open_stream-Keeps unwrapped)
            (λ id. λ t p.
              bind-Keeps (On P) (unwrap t.0.selected_version) _
                (unwrap-Keeps (On P) t.0.selected_version) (λ v u q. added u.0 id a 0 0 v q)
                (set_current a (some id) t.0, t.1) (switched t.0 a (some id) p))
            t p

      fin_stream-Keeps : (a : ℕ) (x : Option ℕ) → Keeps (On P) (fin_stream wt a x)
      unfolding fin_stream
      fin_stream-Keeps a none t p = p
      fin_stream-Keeps a (some id) t p =
          then-Keeps (On P) (with_stream id (OutStream.fin wt)) _
            (with_stream-Keeps id (OutStream.fin wt)) (λ t p. switched t.0 a none p) t p

      switch_stream-Keeps :
          (need : Bool) (a : ℕ) (x g h : Option ℕ) (v : Version)
          → Keeps (On P) (switch_stream wt need a x g h v)
      unfolding switch_stream
      switch_stream-Keeps false a x g h v t p = p
      switch_stream-Keeps true a x g h v t p =
          then-Keeps (On P) (fin_stream wt a x) _ (fin_stream-Keeps a x)
            (bind-Keeps (On P) (open_stream wt or_capacity) _ (open_stream-Keeps or_capacity)
              (λ id t p.
                added (set_current a (some id) t.0) id a (unwrap_or 0 g) (unwrap_or 0 h) v
                  (switched t.0 a (some id) p)))
            t p

      current_of-Keeps : (a : ℕ) → Keeps (On P) (current_of wt a)
      unfolding current_of
      current_of-Keeps a t =
          bind-Keeps (On P) (unwrap (get t.0.out_tracks a))
            (λ track. unwrap track.current_stream_id) (unwrap-Keeps (On P) (get t.0.out_tracks a))
            (λ track. unwrap-Keeps (On P) track.current_stream_id) t

      pub send_obj_pld-Keeps : (buf : List ℕ) (a : ℕ) → Keeps (On P) (send_obj_pld wt buf a)
      unfolding send_obj_pld
      send_obj_pld-Keeps buf a =
          bind-Keeps (On P) (current_of wt a) _ (current_of-Keeps a)
            (λ id. with_stream-Keeps id (OutStream.send_obj_pld wt buf))

      module _ ⦃c : Octets⦄ where
        pub send_obj-Keeps : (buf : List ℕ) (a : ℕ) → Keeps (On P) (send_obj wt buf a)
        unfolding send_obj
        send_obj-Keeps buf a t =
            bind-Keeps (On P) (unwrap (get t.0.out_tracks a)) _
              (unwrap-Keeps (On P) (get t.0.out_tracks a))
              (λ track.
                bind-Keeps (On P) (stream_of wt a track.current_stream_id) _
                  (stream_of-Keeps a track.current_stream_id)
                  (λ id. with_stream-Keeps id (OutStream.send_obj wt buf)))
              t

        pub send_obj_hdr_with-Keeps :
            (group_id subgroup_id object_id : Option ℕ) (size : ℕ) (ext : KeyValuePairs) (a : ℕ)
            → Keeps (On P) (send_obj_hdr_with wt group_id subgroup_id object_id size ext a)
        unfolding send_obj_hdr_with
        send_obj_hdr_with-Keeps g h i size ext a t =
            bind-Keeps (On P) (unwrap t.0.selected_version) _
              (unwrap-Keeps (On P) t.0.selected_version)
              (λ v.
                bind-Keeps (On P) (unwrap (get t.0.out_tracks a)) _
                  (unwrap-Keeps (On P) (get t.0.out_tracks a))
                  (λ track.
                    bind-Keeps (On P) (unwrap (need_new_stream track.current_stream_id g h t.0)) _
                      (unwrap-Keeps (On P) (need_new_stream track.current_stream_id g h t.0))
                      (λ need.
                        then-Keeps (On P) (switch_stream wt need a track.current_stream_id g h v) _
                          (switch_stream-Keeps need a track.current_stream_id g h v)
                          (bind-Keeps (On P) (current_of wt a) _ (current_of-Keeps a)
                            (λ id. with_stream-Keeps id (OutStream.send_obj_hdr wt i size ext))))))
              t

        pub send_obj_hdr-Keeps : (size a : ℕ) → Keeps (On P) (send_obj_hdr wt size a)
        unfolding send_obj_hdr
        send_obj_hdr-Keeps size a = send_obj_hdr_with-Keeps none none none size [] a

        pub send_obj_with-Keeps :
            (buf : List ℕ) (group_id object_id : Option ℕ) (ext : KeyValuePairs) (a : ℕ)
            → Keeps (On P) (send_obj_with wt buf group_id object_id ext a)
        unfolding send_obj_with
        send_obj_with-Keeps buf g i ext a =
            then-Keeps (On P) (send_obj_hdr_with wt g none i (length buf) ext a) _
              (send_obj_hdr_with-Keeps g none i (length buf) ext a)
              (bind-Keeps (On P) (send_obj_pld wt buf a) (λ n. assert (n == length buf))
                (send_obj_pld-Keeps buf a) (λ n. assert-Keeps (On P) (n == length buf)))

      pub reset_current_track_stream-Keeps :
          (a : ℕ) → Keeps (On P) (reset_current_track_stream wt a)
      unfolding reset_current_track_stream
      reset_current_track_stream-Keeps a (s, c) p = outer (get s.out_tracks a)
        where
          stop : Option ℕ → (Session × S) × Reply (Unit {0})
          stop x = elim x [
            | none ↦ ((s, c), ok tt)
            | some id ↦ (
              (
                set_current a none (drop_stream id s),
                (wt.stream_shutdown id reset_stream_code_delivery_timeout c).0,
              ),
              ok tt,
            )
          ]

          inner : (x : Option ℕ) → P (stop x).0.0
          inner none = p
          inner (some id) = switched (drop_stream id s) a none (dropped s id p)

          outer :
              (x : Option OutTrack)
              → P
                  (elim x as (λ _. (Session × S) × Reply (Unit {0})) [
                    | none ↦ ((s, c), panicked)
                    | some track ↦ stop track.current_stream_id
                  ]).0.0
          outer none = p
          outer (some track) = inner track.current_stream_id

      shut_down-Keeps : (id : ℕ) → Keeps (On P) (shut_down wt id)
      unfolding shut_down
      shut_down-Keeps id t p = p

      pub timeout_stream-Keeps : (a : ℕ) → Keeps (On P) (timeout_stream wt a)
      unfolding timeout_stream
      timeout_stream-Keeps a = bind-Keeps (On P) (current_of wt a) _ (current_of-Keeps a) (λ id.
          then-Keeps (On P) (shut_down wt id) _ (shut_down-Keeps id)
            (λ t p. dropped (set_current a none t.0) id (switched t.0 a none p)))
