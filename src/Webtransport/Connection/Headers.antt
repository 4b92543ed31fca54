-- ===== src/Webtransport/Connection/Headers.antt =====
-- quiche_webtransport/src/connection.rs: the headers of HTTP/3 that sessions are made with.
use quiche_moq.Common.{
  Bool, List, Option, [], bytes_eq, false, if◌then◌else◌, length, none, some, true, ℕ, ◌&&◌, ◌++◌,
  ◌==◌, ◌∷◌,
}
use quiche_moq.Common.Map.{Map, get, insert, remove}
use quiche_moq.Webtransport.Quic.{Header}
use quiche_moq.Webtransport.Connection.{
  Connection, PendingRequest, PendingResponse, Perspective, client, established, server,
}

-- The byte strings of the headers.
abbrev pub status_name : List ℕ
status_name = 58 ∷ 115 ∷ 116 ∷ 97 ∷ 116 ∷ 117 ∷ 115 ∷ []

abbrev pub method_name : List ℕ
method_name = 58 ∷ 109 ∷ 101 ∷ 116 ∷ 104 ∷ 111 ∷ 100 ∷ []

abbrev pub method_connect : List ℕ
method_connect = 67 ∷ 79 ∷ 78 ∷ 78 ∷ 69 ∷ 67 ∷ 84 ∷ []

abbrev pub protocol_name : List ℕ
protocol_name = 58 ∷ 112 ∷ 114 ∷ 111 ∷ 116 ∷ 111 ∷ 99 ∷ 111 ∷ 108 ∷ []

abbrev pub protocol_header_webtransport : List ℕ
protocol_header_webtransport =
    119 ∷ 101 ∷ 98 ∷ 116 ∷ 114 ∷ 97 ∷ 110 ∷ 115 ∷ 112 ∷ 111 ∷ 114 ∷ 116 ∷ []

-- `sec-webtransport-http3-draft`
abbrev pub draft_name : List ℕ
draft_name =
    115 ∷ 101 ∷ 99 ∷ 45 ∷ 119 ∷ 101 ∷ 98 ∷ 116 ∷ 114 ∷ 97 ∷ 110 ∷ 115 ∷ 112 ∷ 111 ∷ 114 ∷ 116 ∷ 45
    ∷ 104 ∷ 116 ∷ 116 ∷ 112 ∷ 51 ∷ 45 ∷ 100 ∷ 114 ∷ 97 ∷ 102 ∷ 116 ∷ []

abbrev pub two_hundred : List ℕ
two_hundred = 50 ∷ 48 ∷ 48 ∷ []

abbrev pub one : List ℕ
one = 49 ∷ []

-- `draft02`
abbrev pub draft02 : List ℕ
draft02 = 100 ∷ 114 ∷ 97 ∷ 102 ∷ 116 ∷ 48 ∷ 50 ∷ []

-- What `recv_hdrs` has seen of the headers.
pub record Seen : Type 0 where
  pub status : Option (List ℕ)
  pub method_is_connect : Bool
  pub wt_draft_supported : Bool
  pub wt_draft_selected : Bool
  pub protocol_is_webtransport : Bool

unfoldable pub nothing_seen : Seen
nothing_seen = record {
  status = none;
  method_is_connect = false;
  wt_draft_supported = false;
  wt_draft_selected = false;
  protocol_is_webtransport = false;
}

-- One round of the `for`; `none` where a status has other than three bytes.
unfoldable pub see : Header → Seen → Option Seen
see h s =
    if bytes_eq h.name status_name
    then if length h.value == 3 then some (record s { status = some h.value }) else none
    else if bytes_eq h.name method_name && bytes_eq h.value method_connect
    then some (record s { method_is_connect = true })
    else if bytes_eq h.name protocol_name && bytes_eq h.value protocol_header_webtransport
    then some (record s { protocol_is_webtransport = true })
    else if bytes_eq h.name (draft_name ++ (48 ∷ 50 ∷ [])) && bytes_eq h.value one
    then some (record s { wt_draft_supported = true })
    else if bytes_eq h.name draft_name && bytes_eq h.value draft02
    then some (record s { wt_draft_selected = true })
    else some s

unfoldable pub see_all : List Header → Seen → Option Seen
unfolding see
see_all [] s = some s
see_all (h ∷ hs) s = elim (see h s) [ none ↦ none | some s' ↦ see_all hs s' ]

unfoldable pub is_two_hundred : Option (List ℕ) → Bool
is_two_hundred none = false
is_two_hundred (some s) = bytes_eq s two_hundred

-- The client's half of `recv_hdrs`; `none` where an assertion or an `unwrap` fails.
unfoldable pub respond : ℕ → Map PendingRequest → Seen → Connection → Option Connection
unfolding is_two_hundred
respond stream_id pending_requests seen c = elim (get pending_requests stream_id) [
  | none ↦ none
  | some req ↦
      if req.session_id == stream_id && is_two_hundred seen.status && seen.wt_draft_selected
      then some (record c {
        perspective = client (remove stream_id pending_requests);
        sessions = insert stream_id established c.sessions;
      })
      else none
]

unfoldable pub requested : ℕ → Map PendingResponse → Seen → Connection → Connection
requested stream_id pending_responds seen c =
    if seen.method_is_connect && seen.protocol_is_webtransport && seen.wt_draft_supported
    then record c {
      sessions = insert stream_id established c.sessions;
      perspective = server (insert stream_id (record { session_id = stream_id }) pending_responds);
    }
    else c

unfoldable pub recv_seen : ℕ → Perspective → Seen → Connection → Option Connection
unfolding respond requested
recv_seen stream_id (server pending_responds) seen c =
    some (requested stream_id pending_responds seen c)
recv_seen stream_id (client pending_requests) seen c = respond stream_id pending_requests seen c

unfoldable pub recv_hdrs : ℕ → List Header → Connection → Option Connection
unfolding see_all nothing_seen recv_seen
recv_hdrs stream_id headers c = elim (see_all headers nothing_seen) [
  | none ↦ none
  | some seen ↦ recv_seen stream_id c.perspective seen c
]

pub record Url : Type 0 where
  pub scheme : List ℕ
  pub authority : List ℕ
  pub path : List ℕ

abbrev pub scheme_name : List ℕ
scheme_name = 58 ∷ 115 ∷ 99 ∷ 104 ∷ 101 ∷ 109 ∷ 101 ∷ []

abbrev pub authority_name : List ℕ
authority_name = 58 ∷ 97 ∷ 117 ∷ 116 ∷ 104 ∷ 111 ∷ 114 ∷ 105 ∷ 116 ∷ 121 ∷ []

abbrev pub path_name : List ℕ
path_name = 58 ∷ 112 ∷ 97 ∷ 116 ∷ 104 ∷ []

unfoldable pub request_headers : Url → List Header
request_headers url =
    record { name = method_name; value = method_connect }
    ∷ record { name = protocol_name; value = protocol_header_webtransport }
    ∷ record { name = scheme_name; value = url.scheme }
    ∷ record { name = authority_name; value = url.authority }
    ∷ record { name = path_name; value = url.path }
    ∷ record { name = draft_name ++ (48 ∷ 50 ∷ []); value = one }
    ∷ []

unfoldable pub response_headers : List Header
response_headers =
    record { name = status_name; value = two_hundred }
    ∷ record { name = draft_name; value = draft02 }
    ∷ []
