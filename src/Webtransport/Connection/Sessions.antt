-- ===== src/Webtransport/Connection/Sessions.antt =====
-- quiche_webtransport/src/connection.rs: sessions are requested, answered and closed.
use quiche_moq.Common.{
  Bool, List, [], drop, false, if◌then◌else◌, length, take, true, zeros, ℕ, ◌++◌, ◌==◌, ◌∷◌,
}
use quiche_moq.Common.Map.{Map, contains_key, insert, keys_where, remove}
use quiche_moq.Common.Outcome.{Outcome, ok, err, panicked}
use quiche_moq.Octets.{Octets, Result, Writer, bind, ◌>>=◌, ◌>>◌}
use quiche_moq.Octets
use quiche_moq.Capsule
use quiche_moq.Webtransport.{Error}
use quiche_moq.Webtransport.Quic.{H3Error, Quic}
use quiche_moq.Webtransport.Connection.{
  Connection, Did, PendingResponse, client, pending_request, server,
}
use quiche_moq.Webtransport.Connection.Headers.{Url, request_headers, response_headers}

abbrev pub wt_close_session : ℕ
wt_close_session = 0x2843

unfoldable pub established_sessions : ℕ → Connection → Bool
established_sessions session_id c = contains_key c.sessions session_id

unfoldable pub session_ids : Connection → List ℕ
session_ids c = keys_where (λ s. true) c.sessions

module _ {S : Type 0} where
  -- `assert_eq!(sent, len)`
  unfoldable pub after_body : ℕ → Connection → S × Outcome H3Error ℕ → Did S (Unit {0})
  after_body len c (s, ok sent) = ((c, s), if sent == len then ok tt else panicked)
  after_body len c (s, err e) = ((c, s), panicked)
  after_body len c (s, panicked) = ((c, s), panicked)

  module _ (quic : Quic S) where
    unfoldable pub connect_session : Url → Connection × S → Did S ℕ
    unfolding request_headers pending_request
    connect_session url (c, s) = elim c.perspective [
      | server pending_responds ↦ ((c, s), panicked)
      | client pending_requests ↦
          let r = quic.send_request (request_headers url) false s in
          elim (r.1) [
            | ok id ↦ (
              (record c { perspective = client (insert id pending_request pending_requests) }, r.0),
              ok id,
            )
            | err e ↦ ((c, r.0), panicked)
            | panicked ↦ ((c, r.0), panicked)
          ]
    ]

    -- `pending_responds.retain(...)`, which keeps none.
    unfoldable pub send_responses : Map PendingResponse → S → S × Outcome Error (Unit {0})
    unfolding response_headers
    send_responses [] s = (s, ok tt)
    send_responses ((id, resp) ∷ m) s =
        let r = quic.send_response resp.session_id response_headers false s in
        elim (r.1) [
          | ok u ↦ send_responses m r.0
          | err e ↦ (r.0, panicked)
          | panicked ↦ (r.0, panicked)
        ]

    unfoldable pub respond_all : Connection × S → Did S (Unit {0})
    unfolding send_responses
    respond_all (c, s) = elim c.perspective [
      | client pending_requests ↦ ((c, s), ok tt)
      | server pending_responds ↦
          let r = send_responses pending_responds s in
          ((record c { perspective = server [] }, r.0), r.1)
    ]

    module _ ⦃o : Octets⦄ where
      -- The body of the capsule, written into `[0u8; 1024]`.
      unfoldable pub close_value : ℕ → List ℕ → Result (List ℕ)
      close_value error_code error_msg =
          bind
            ((o.put_u32 error_code >> o.put_bytes error_msg)
              (record { written = []; ahead = zeros 1024 }))
            (λ (u, w). Octets.ok w.written)

      -- `buf` holds the body where the capsule is written over it.
      unfoldable pub close_bytes : ℕ → List ℕ → Result (List ℕ)
      unfolding close_value
      close_bytes error_code error_msg = bind (close_value error_code error_msg) (λ value.
          bind
            (Capsule.encode (Capsule.new wt_close_session value)
              (value ++ drop (length value) (zeros 1024)))
            (λ (buf, len). Octets.ok (take len buf)))

      unfoldable pub send_close : ℕ → Result (List ℕ) → Connection → S → Did S (Unit {0})
      unfolding after_body
      send_close session_id (Octets.ok b) c s =
          after_body (length b) c (quic.send_body session_id b false s)
      send_close session_id (Octets.err e) c s = ((c, s), err Error.insufficient_capacity)
      send_close session_id Octets.panic c s = ((c, s), panicked)

      unfoldable pub close_session : ℕ → ℕ → List ℕ → Connection × S → Did S (Unit {0})
      unfolding send_close close_bytes
      close_session session_id error_code error_msg (c, s) =
          if contains_key c.sessions session_id
          then send_close session_id (close_bytes error_code error_msg)
              (record c { sessions = remove session_id c.sessions }) s
          else ((c, s), panicked)
