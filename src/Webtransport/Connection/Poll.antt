-- ===== src/Webtransport/Connection/Poll.antt =====
-- quiche_webtransport/src/connection.rs: `poll`, and all that quiche_moq calls.
use quiche_moq.Common.{List, Option, [], if◌then◌else◌, none, not, some, true, ℕ, ◌∷◌}
use quiche_moq.Common.Map.{Map, get, insert, retain}
use quiche_moq.Common.Outcome.{ok, err, panicked}
use quiche_moq.Octets.{Octets}
use quiche_moq.Webtransport.{Error, Transport}
use quiche_moq.Webtransport.Quic.{Quic}
use quiche_moq.Webtransport.Stream.{Stream, new_remote}
use quiche_moq.Webtransport.Stream
use quiche_moq.Webtransport.Connection.{Connection, Did}
use quiche_moq.Webtransport.Connection.Streams.{
  open_stream, readable_streams, recv_stream, stream_send, stream_send_if_capacity,
}
use quiche_moq.Webtransport.Connection.Sessions.{close_session, respond_all}

module _ {S : Type 0} where
  module _ (quic : Quic S) where
    module _ ⦃o : Octets⦄ where
      -- The stream of the id, or a new one of the peer.
      unfoldable pub stream_or_new : ℕ → Map Stream → Stream
      stream_or_new id m = elim (get m id) [ none ↦ new_remote id | some t ↦ t ]

      -- `Err(Done)` goes on with the next stream; `none` where the fuel is used up.
      unfoldable pub after_session_id :
          ℕ → Connection → Option (Stream.Did S ℕ) → Option (Did S (Unit {0}))
      after_session_id id c none = none
      after_session_id id c (some (t, s, ok session_id)) = some (
        (
          record c {
            closed = if quic.stream_finished id s then true else c.closed;
            streams = insert id (record t { readable = true }) c.streams;
          },
          s,
        ),
        ok tt,
      )
      after_session_id id c (some (t, s, err Error.done)) =
          some ((record c { streams = insert id t c.streams }, s), ok tt)
      after_session_id id c (some (t, s, err _)) =
          some ((record c { streams = insert id t c.streams }, s), panicked)
      after_session_id id c (some (t, s, panicked)) =
          some ((record c { streams = insert id t c.streams }, s), panicked)

      unfoldable pub next_stream :
          (Connection × S → Option (Did S (Unit {0})))
          → Option (Did S (Unit {0}))
          → Option (Did S (Unit {0}))
      next_stream rest none = none
      next_stream rest (some (t, ok u)) = rest t
      next_stream rest (some (t, err e)) = some (t, err e)
      next_stream rest (some (t, panicked)) = some (t, panicked)

      unfoldable pub poll_streams : ℕ → List ℕ → Connection × S → Option (Did S (Unit {0}))
      unfolding after_session_id next_stream stream_or_new
      poll_streams fuel [] t = some (respond_all quic t)
      poll_streams fuel (id ∷ ids) (c, s) =
          next_stream (poll_streams fuel ids) (
            after_session_id id c (Stream.read_session_id quic fuel (stream_or_new id c.streams) s))

      -- Finished streams are dropped first.
      unfoldable pub poll : ℕ → Connection × S → Option (Did S (Unit {0}))
      unfolding poll_streams
      poll fuel (c, s) =
          let r = quic.readable_webtransport_streams s in
          poll_streams fuel r.1
            (record c { streams = retain (λ id t. not t.finished) c.streams }, r.0)

      -- What quiche_moq is given; the error message of `close_session` is its own.
      unfoldable pub transport : List ℕ → Transport (Connection × S)
      unfolding readable_streams open_stream recv_stream stream_send stream_send_if_capacity
          close_session
      transport error_msg = record {
        readable_streams = λ session_id (c, s). readable_streams session_id c;
        open_stream = λ session_id bidi. open_stream quic session_id bidi;
        recv_stream = λ stream_id session_id. recv_stream quic stream_id session_id;
        stream_send = λ stream_id b fin. stream_send quic stream_id b fin;
        stream_send_if_capacity = λ stream_id b fin. stream_send_if_capacity quic stream_id b fin;
        close_session = λ session_id code. close_session quic session_id code error_msg;
        stream_shutdown = λ stream_id code (c, s).
            let r = quic.stream_shutdown stream_id code s in ((c, r.0), r.1);
      }
