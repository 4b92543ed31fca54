-- ===== src/Webtransport/Connection/Client.antt =====
-- What quiche_moq sees of a connection: streams that have no room for the id of their session, and
-- the sessions that a client may have.
use quiche_moq.Common.{
  Bool, List, Option, ap, arith, false, if◌then◌else◌, leb, length, ltb, none, refl, some, subst,
  sym, true, ℕ, ◌%◌, ◌&&◌, ◌+◌, ◌-◌, ◌<◌, ◌==◌, ◌^◌, ◌∙◌, ◌≡◌, ◌≤◌,
}
use quiche_moq.Common.Map.{Map, get, get-insert_self, insert, remove}
use quiche_moq.Common.Outcome.{Outcome, ok, err, panicked}
use quiche_moq.Octets.{Octets}
use quiche_moq.Octets
use quiche_moq.Moq.OutStream.{
  OutStream, Sent, after_send, send_bytes, in_buffer, object_header, pick_id, send_in_state,
  send_object_header, send_obj_hdr, send_subgroup_header, subgroup_header,
}
use quiche_moq.Wire.KeyValuePairs.{KeyValuePairs}
use quiche_moq.Wire.Subgroup.{SubgroupHeader}
use quiche_moq.Wire.Subgroup
use quiche_moq.Webtransport.{Error, Transport}
use quiche_moq.Webtransport.Quic.{H3Error, Header, Quic}
use quiche_moq.Webtransport.Stream.{
  Stream, after_id, send_payload, capacity, capacity_of, less_id, id_bytes, no_count, send, send_id,
  send_if_capacity, send_within, with_capacity,
}
use quiche_moq.Webtransport.Stream
use quiche_moq.Webtransport.Stream.Wire.{id_bytes_lem}
use quiche_moq.Webtransport.Connection.{
  Connection, Did, PendingRequest, Perspective, client, established, pending_request, server,
}
use quiche_moq.Webtransport.Connection.Headers.{
  Seen, Url, is_two_hundred, nothing_seen, recv_hdrs, recv_seen, request_headers, respond, see_all,
}
use quiche_moq.Webtransport.Connection.Poll.{transport}
use quiche_moq.Webtransport.Connection.Sessions.{connect_session}
use quiche_moq.Webtransport.Connection.Streams.{stream_send_if_capacity, with_stream}

-- A capacity below the length of the id counts as at least 2 ^ 64 - 8.
not_below :
    (room n size : ℕ) → room < n → n ≤ 8 → size + 8 ≤ 2 ^ 64 → size ≤ (room + 2 ^ 64 - n) % 2 ^ 64
not_below room n size l b w = omega (arith, l, b, w)

module _ {S : Type 0} (quic : Quic S) ⦃o : Octets⦄ where
  -- The capacity is below the length of the id: the subtraction wraps round.
  send_if_capacity_full :
      (id room : ℕ) (buf : List ℕ) (fin : Bool) (t : Stream) (s : S)
      → t.session_id ≡ some id
      → id < 2 ^ 62
      → t.sent_session_id ≡ false
      → quic.stream_capacity t.stream_id s ≡ ok room
      → room < o.varint_len id
      → length buf + 8 ≤ 2 ^ 64
      → send_if_capacity quic buf fin t s ≡ (t, s, err Error.done)
  unfolding send_if_capacity capacity capacity_of less_id send_within send send_id with_capacity
      no_count
  send_if_capacity_full id room buf fin t s i h e c l w =
      let wrapped : ℕ = (room + 2 ^ 64 - o.varint_len id) % 2 ^ 64 in
      let bounds = o.varint_len_bounds id h in
      let large : ltb wrapped (length buf) ≡ false =
        ground (arith, not_below room (o.varint_len id) (length buf) l bounds.1 w) in
      let small : ltb room (length (o.varint id)) ≡ true =
        ground (arith, o.length-varint id h, l) in
      ap (λ r. send_within quic buf fin t s (capacity_of quic t r)) c
      ∙ ap
          (λ b.
            send_within quic buf fin t s (if b then ok room else less_id quic t.session_id room))
          e
      ∙ ap (λ x. send_within quic buf fin t s (less_id quic x room)) i
      ∙ ap
          (λ b.
            if b then (t, s, err Error.insufficient_capacity) else no_count (send quic buf fin t s))
          large
      ∙ ap
          (λ b. no_count (
            if b
            then send_payload quic buf fin t s
            else send_id quic (id_bytes quic t.session_id) buf fin t s))
          e
      ∙ ap (λ x. no_count (send_id quic (id_bytes quic x) buf fin t s)) i
      ∙ ap (λ r. no_count (send_id quic r buf fin t s)) (id_bytes_lem quic id h)
      ∙ ap (λ r. no_count (with_capacity quic (o.varint id) buf fin t s r)) c
      ∙ ap
          (λ b. no_count (
            if b
            then (t, s, err Error.done)
            else after_id quic (o.varint id) buf fin t
                (quic.stream_send t.stream_id (o.varint id) false s)))
          small

  -- The sender of a header does not expect `done`.
  send_bytes_panics :
      (id room : ℕ) (b : List ℕ) (msg : List ℕ) (t : Stream) (c : Connection) (s : S)
      (u : OutStream) (next : Connection × S → Sent (Connection × S) (Unit {0}))
      → get c.streams u.stream_id ≡ some t
      → t.session_id ≡ some id
      → id < 2 ^ 62
      → t.sent_session_id ≡ false
      → quic.stream_capacity t.stream_id s ≡ ok room
      → room < o.varint_len id
      → length b + 8 ≤ 2 ^ 64
      → (send_bytes (transport quic msg) u next (Octets.ok b) (c, s)).2 ≡ panicked
  unfolding send_bytes transport stream_send_if_capacity with_stream after_send
  send_bytes_panics id room b msg t c s u next g i h e k l w =
      ap
        (λ (x : Option Stream).
          (after_send u next (elim x as (λ _. (Connection × S) × Outcome Error (Unit {0})) [
            | none ↦ ((c, s), panicked)
            | some t ↦
                let r = send_if_capacity quic b false t s in
                ((record c { streams = insert u.stream_id r.0 c.streams }, r.1), r.2)
          ])).2)
        g
      ∙ ap
          (λ (r : Stream.Did S (Unit {0})).
            (after_send u next
              ((record c { streams = insert u.stream_id r.0 c.streams }, r.1), r.2)).2)
          (send_if_capacity_full id room b false t s i h e k l w)

  -- If a stream of a session with an id below 2^62 has not sent the id, its capacity is below the
  -- length of the id, and an OutStream over it has its subgroup header still to send, of at most
  -- 2^64 - 8 bytes: then stream_send_if_capacity of these bytes answers done, as the subtraction of
  -- the capacity wraps round, and send_obj_hdr, whatever it is called with, panics.
  pub send_obj_hdr_without_room :
      (id room size : ℕ) (object_id : Option ℕ) (extension_headers : KeyValuePairs)
      (subgroup : SubgroupHeader) (b msg : List ℕ) (t : Stream) (c : Connection) (s : S)
      (u : OutStream)
      → get c.streams u.stream_id ≡ some t
      → t.session_id ≡ some id
      → id < 2 ^ 62
      → t.sent_session_id ≡ false
      → quic.stream_capacity t.stream_id s ≡ ok room
      → room < o.varint_len id
      → u.state ≡ subgroup_header
      → Subgroup.new u.track_alias u.group_id u.subgroup_id u.version ≡ Octets.ok subgroup
      → in_buffer (Subgroup.to_bytes u.version subgroup) ≡ Octets.ok b
      → length b + 8 ≤ 2 ^ 64
      → ((stream_send_if_capacity quic u.stream_id b false (c, s)).1 ≡ err Error.done)
        × ((send_obj_hdr (transport quic msg) object_id size extension_headers u (c, s)).2
            ≡ panicked)
  unfolding stream_send_if_capacity with_stream send_obj_hdr send_in_state send_subgroup_header
  send_obj_hdr_without_room id room size object_id extension_headers subgroup b msg t c s u g i h e
        k l st made written w =
      (
        ap
              (λ (x : Option Stream).
                (elim x as (λ _. Did S (Unit {0})) [
                  | none ↦ ((c, s), panicked)
                  | some t ↦
                      let r = send_if_capacity quic b false t s in
                      ((record c { streams = insert u.stream_id r.0 c.streams }, r.1), r.2)
                ]).1)
              g
            ∙ ap (λ (r : Stream.Did S (Unit {0})). r.2)
                (send_if_capacity_full id room b false t s i h e k l w),
        guarded (leb 1 size),
      )
    where
      wt : Transport (Connection × S)
      wt = transport quic msg

      next : Connection × S → Sent (Connection × S) (Unit {0})
      next s =
          send_object_header wt subgroup.ty (pick_id u.next_object_id object_id) size
            extension_headers (record u { state = object_header subgroup.ty }) s

      begun : (send_in_state wt u.state object_id size extension_headers u (c, s)).2 ≡ panicked
      begun =
          ap (λ st. (send_in_state wt st object_id size extension_headers u (c, s)).2) st
          ∙ ap (λ x. (send_subgroup_header wt object_id size extension_headers u x (c, s)).2) made
          ∙ ap (λ x. (send_bytes wt u next x (c, s)).2) written
          ∙ send_bytes_panics id room b msg t c s u next g i h e k l w

      guarded :
          (x : Bool)
          → (if x
              then send_in_state wt u.state object_id size extension_headers u (c, s)
              else (u, (c, s), panicked)).2
            ≡ panicked
      guarded true = begun
      guarded false = refl

pending_fails :
    (id : ℕ) (p : Map PendingRequest) (seen : Seen) (d : Connection)
    → 1 ≤ id
    → respond id (insert id pending_request p) seen d ≡ none
unfolding respond pending_request
pending_fails id p seen d h =
    let differ : (0 == id) ≡ false = ground (arith, h) in
    ap (λ x. answer x) (get-insert_self id pending_request p) ∙ rw differ refl
  where
    answer : Option PendingRequest → Option Connection
    answer x = elim x [
      | none ↦ none
      | some req ↦
          if req.session_id == id && is_two_hundred seen.status && seen.wt_draft_selected
          then some (record d {
            perspective = client (remove id (insert id pending_request p));
            sessions = insert id established d.sessions;
          })
          else none
    ]

-- After connect_session of a client returned a session id of 1 or more, recv_hdrs with whatever
-- headers on that session panics, at the assertion on the id that PendingRequest::new sets to 0.
pub second_session_fails :
    {S : Type 0} (quic : Quic S) (url : Url) (c d : Connection) (s s' : S) (id : ℕ)
    (headers : List Header)
    → connect_session quic url (c, s) ≡ ((d, s'), ok id)
    → 1 ≤ id
    → recv_hdrs id headers d ≡ none
unfolding connect_session recv_hdrs recv_seen
second_session_fails {S} quic url c d s s' id headers e h = asked c.perspective e
  where
    r : S × Outcome H3Error ℕ
    r = quic.send_request (request_headers url) false s

    with_requests : Map PendingRequest → ℕ → Connection
    with_requests p i = record c { perspective = client (insert i pending_request p) }

    refused : (p : Map PendingRequest) → recv_hdrs id headers (with_requests p id) ≡ none
    refused p = seen (see_all headers nothing_seen)
      where
        seen :
            (x : Option Seen)
            → elim x as (λ _. Option Connection) [
              | none ↦ none
              | some y ↦ recv_seen id (client (insert id pending_request p)) y (with_requests p id)
            ]
              ≡ none
        seen none = refl
        seen (some y) = pending_fails id p y (with_requests p id) h

    sent :
        (p : Map PendingRequest) (x : Outcome H3Error ℕ)
        → elim x as (λ _. Did S ℕ) [
          | ok i ↦ ((with_requests p i, r.0), ok i)
          | err e ↦ ((c, r.0), panicked)
          | panicked ↦ ((c, r.0), panicked)
        ]
          ≡ ((d, s'), ok id)
        → recv_hdrs id headers d ≡ none
    sent p (ok i) e =
        let same : i ≡ id = cc e in
        let opened : with_requests p i ≡ d = ap (λ (x : Did S ℕ). x.0.0) e in
        subst (λ d. recv_hdrs id headers d ≡ none) (ap (with_requests p) (sym same) ∙ opened)
          (refused p)
    sent p (err i) e = absurd (cc e)
    sent p panicked e = absurd (cc e)

    asked :
        (x : Perspective)
        → elim x as (λ _. Did S ℕ) [
          | server pending_responds ↦ ((c, s), panicked)
          | client p ↦ elim (r.1) as (λ _. Did S ℕ) [
            | ok i ↦ ((with_requests p i, r.0), ok i)
            | err e ↦ ((c, r.0), panicked)
            | panicked ↦ ((c, r.0), panicked)
          ]
        ]
          ≡ ((d, s'), ok id)
        → recv_hdrs id headers d ≡ none
    asked (server p) e = absurd (cc e)
    asked (client p) e = sent p r.1 e
