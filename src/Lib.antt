-- ===== src/Lib.antt =====
-- The MoQ transport of this repository: the wire format of quiche_moq_wire, the capsules of
-- http_capsule, the buffer of short_buf, the sessions, tracks and streams of quiche_moq, and the
-- WebTransport connections of quiche_webtransport that they run over.
--
-- A session has a control stream, on which both ends write messages, and streams of one direction
-- that carry the objects of a track. `poll` reads the control stream, acts on each message, and
-- hands what arrives on the other streams to the track that their header names; the application
-- subscribes, announces namespaces and answers the peer in between, and reads and writes objects
-- track by track.
--
-- An endpoint speaks one of ten drafts of the protocol, 07 to 16, and the wire format differs
-- between them: the crate branches on the version in most of its functions. A message is written
-- into the free part of a buffer and read from what has arrived so far. A reader that finds too
-- few bytes answers `BufferTooShort`, and its caller drops the attempt and tries again when
-- there is more: so the readers have to answer that, and nothing else, for every part of a
-- message. This development models each reader and writer as the function it is, for all
-- versions at once.
--
-- Parts:
--   Octets (crate octets, not in the repository): the cursors as a record of operations and of
--     what is relied on of them. `M S A` is code that moves a cursor: it returns a value, an
--     error of quiche_moq_wire/src/error.rs, or panics (a failed assertion, `unwrap` of `None`,
--     `unimplemented!()`). Octets.Codec has `Codes p g a`: `p` writes some bytes or fails for
--     want of room, `g` reads `a` from them whatever follows, and each proper prefix of them is
--     answered by `buffer_too_short`. Octets.Cursor is quiche_moq_wire/src/octets.rs.
--     Octets.Rfc9000 is an instance over lists, with the variable-length integers of RFC 9000.
--   Wire.Version: quiche_moq_wire/src/version.rs and the version numbers of lib.rs. A `match` on
--     ranges of versions is an `if` on `between`, its `_ => unimplemented!()` is `panics`.
--   Wire.Tuple, Wire.Namespace, Wire.NamespaceTrackname, Wire.Location, Wire.Role,
--     Wire.ReasonPhrase, Wire.KeyValuePair, Wire.KeyValuePairs, Wire.Parameter, Wire.Parameters,
--     Wire.SetupParameters, Wire.Subgroup, Wire.Object: the files of quiche_moq_wire/src with
--     these names; `from_bytes` and `to_bytes` keep their names. A `String` is its UTF-8 bytes.
--   Wire.NamespaceTrackname.Text: the text form of a field in namespace_trackname.rs. A `str` is its
--     characters; a slice of it is one of its UTF-8 bytes, and `none` stands for the panic inside a
--     character.
--   Wire.Control: quiche_moq_wire/src/control_message. Frame is header.rs and the functions and
--     blanket implementations of mod.rs, a record `ControlMessage` for the trait; one module for
--     each message with its `to_body_bytes` and `from_body_bytes`; Enum is the dispatch of
--     `control_message_enum!`.
--   Capsule: http_capsule/src/lib.rs, over the same cursor.
--   ShortBuf: short_buf/src/buf.rs. The slice that a callback may write to is passed to it and
--     returned by it. ShortBuf.Queue has the invariant and the queue of bytes that the buffer
--     stands for.
--   Moq.InTrack: quiche_moq/src/in_track.rs. `binary_search` on an ascending list is a walk to
--     the same place.
--   Moq.OutStream: quiche_moq/src/out_stream.rs, the calls that send a header and a payload.
--   Moq.OutTrack, Moq.Error: the files of quiche_moq/src with these names. StreamId:
--     quiche_utils/src/stream_id.rs.
--   Moq.Action: a method of the session as a function from the state to the state and a `Reply`,
--     which is a value, an error, a panic, or `unfinished` where the fuel of a loop is used up. The
--     state beside a panic is one that the code had on the way; it is not what a program sees of it.
--   Moq.InStream: quiche_moq/src/in_stream.rs. Payload and Headers have its contract, Kept what
--     its calls leave as it is.
--   Moq.Session: quiche_moq/src/session.rs, with config.rs and pending_subscribe.rs. Handle is the
--     `match` of `poll` on a control message, Poll the rest of `poll` and of `next_control_message`,
--     Requests the methods for subscriptions and namespaces, Send and Receive those for objects.
--     Sound and Linked have the invariant of the state, one child of Sound for each of these, and
--     Reachable the sessions that any calls in any order make. Messages, Announcing, Exchange and
--     Subscribing join two sessions, or a request and its answer; Reading and Panicking are about the
--     loop over the streams of a track.
--   Webtransport: the interface `Transport` is what quiche_moq calls of a connection, over a state
--     `S`, so that a session runs over every such connection. The laws IsSender and IsReceiver are
--     stated of it, and Connection.Sends and Connection.Receives are about them for `transport` of
--     Connection.Poll. Webtransport.Quic is in the same way what quiche_webtransport calls of the
--     crate quiche, which is not in the repository; its laws IsQuic and IsDrained state what quiche
--     documents of sending and receiving.
--     Webtransport.Stream is quiche_webtransport/src/stream.rs, where Wire has what a stream sends
--     and SessionId how the id of its session is read; Webtransport.Connection is connection.rs with
--     session.rs, pending_request.rs and pending_response.rs: Headers, Streams, Sessions and Poll
--     are its methods, and Client is what the two crates make of each other.
--   Common: tests, lists, the stable sort behind `sort_by_key`, and `HashMap` as an association list
--     whose order is one that the iteration over the map may take.
--
-- Loops: the loop over the extension headers of an object runs on fuel, one round more than the
-- length in front of them, as each round reads a byte or more. The other loops wait for bytes of a
-- transport and end with what it answers: those of `read_obj_hdr`, of `next_control_message` and of
-- `read_session_id` run on fuel that the caller gives. Each round on the header of an object
-- without extensions adds a byte to a buffer of 100, or is one of the rounds, counted by `left`, in
-- which the transport answers a slice with room by no byte, as at the end of a stream; the loop over
-- the streams of a track drops a stream in each round.
--
-- Bounds: u64 and usize are 64 bits wide; casts and the wrap-around of the delta coding are
-- written out. The length of a message has two bytes, as a varint up to draft 10: a frame is
-- exact below 2^14 bytes, which is the bound `message_limit`. `Vec::with_capacity` panics above
-- 2^63 - 1 bytes.
--
-- Not modelled: debug assertions, names for logs, `Debug` and `Display`, the state of a cursor
-- after an error (the callers drop it), the events of the feature qlog. Of quiche_moq the getters
-- that only return a field. Of quiche_webtransport what sets up a connection (`configure_h3`,
-- `webtransport_enabled_by_server`, which read settings of the crate quiche). Of the repository,
-- the joined text form of track names, quiche_moq_webtransport_helper, the relay, the tools and the
-- bindings, which open sockets, run threads or timers and call the crates above.
pub mod Capsule
pub mod Common
pub mod Moq
pub mod Octets
pub mod ShortBuf
pub mod StreamId
pub mod Webtransport
pub mod Wire
