-- ===== src/Moq/Session/Tests.antt =====
-- The properties of a session at concrete states, over a transport that takes whatever it is given.
mod Exchange
mod Messages
mod Reading
mod Requests
use quiche_moq.Common.{
  ==_iff, List, Option, [], ap, false, length, refl, some, ℕ, ◌++◌, ◌∙◌, ◌∷◌, ◌≡◌,
}
use quiche_moq.Common.Outcome.{Outcome}
use quiche_moq.Common.Map.{insert}
use quiche_moq.Octets
use quiche_moq.Octets.Rfc9000.{rfc9000}
use quiche_moq.Octets.Rfc9000
use quiche_moq.Octets.Cursor
use quiche_moq.Octets.Codec
use quiche_moq.ShortBuf.{ShortBuf, buffer}
use quiche_moq.ShortBuf
use quiche_moq.ShortBuf.Queue.{IsValid}
use quiche_moq.Wire.Version.{between, draft_07}
use quiche_moq.Wire.Namespace.{Namespace}
use quiche_moq.Wire.Namespace
use quiche_moq.Wire.Tuple
use quiche_moq.Wire.Parameters
use quiche_moq.Wire.Subgroup.{SubgroupHeader}
use quiche_moq.Wire.NamespaceTrackname.{NamespaceTrackname}
use quiche_moq.Wire.Control.Enum
use quiche_moq.Wire.Control.Enum.RoundTrip.{received}
use quiche_moq.Wire.Control.FilterType
use quiche_moq.Wire.Control.Frame
use quiche_moq.Wire.Control.PublishNamespace
use quiche_moq.Wire.Control.PublishOk
use quiche_moq.Wire.Control.RequestsBlocked
use quiche_moq.Wire.Control.Subscribe
use quiche_moq.Wire.Control.SubscribeOk.{GroupOrder, SubscribeOkMessage}
use quiche_moq.Webtransport.{Transport, Error as WtError}
use quiche_moq.Moq.Error.{Error}
use quiche_moq.Moq.Action.{after, assert, err, ok, panicked, unfinished, unwrap, ◌>>◌}
use quiche_moq.Moq.InStream.{InStream, buf_len}
use quiche_moq.Moq.InStream
use quiche_moq.Moq.InStream.Kept.{alias}
use quiche_moq.Moq.InTrack.{InTrack, current_stream}
use quiche_moq.Moq.InTrack
use quiche_moq.Moq.OutStream.{in_buffer}
use quiche_moq.Moq.Session.{
  Config, Session, accepted, send_all, send_control_message, version_or_setup,
}
use quiche_moq.Moq.Session
use quiche_moq.Moq.Session.Announcing.{namespace_life, publish_after_subscribe, server_takes_one}
use quiche_moq.Moq.Session.Handle.{adopt, alias_of, handle, on_publish_namespace}
use quiche_moq.Moq.Session.Linked.{Holds, alias_at}
use quiche_moq.Moq.Session.Messages.{control_message_delivered, next_control_message_never_wire}
use quiche_moq.Moq.Session.Poll
use quiche_moq.Moq.Session.Poll.{next_control_message}
use quiche_moq.Moq.Session.Reachable.{Reachable, Step, reachable-IsSound}
use quiche_moq.Moq.Session.Reading.{Ready, read_tracks_total, streams_of}
use quiche_moq.Moq.Session.Receive
use quiche_moq.Moq.Session.Requests.{
  PublishStatus, accept_namespace_publish, announce_message, announced, is_blocked,
  poll_subscribe_response, publish_namespace, publish_namespace_done, publish_namespace_status,
  subscribe, subscribe_message, subscribed,
}
use quiche_moq.Moq.Session.Sound.{IsSound, accept-IsSound}
use quiche_moq.Moq.Session.Subscribing.{subscribe_completes}

-- The state is what was sent.
abbrev pub whole : Transport (List ℕ)
whole = record {
  readable_streams = λ id s. 0 ∷ [];
  open_stream = λ id bidi s. (s, Outcome.ok 0);
  recv_stream = λ id session_id s b. (s, b, Outcome.err WtError.done);
  stream_send = λ id b fin s. (s ++ b, Outcome.ok (length b));
  stream_send_if_capacity = λ id b fin s. (s ++ b, Outcome.ok tt);
  close_session = λ id code s. (s, Outcome.ok tt);
  stream_shutdown = λ id code s. (s, Outcome.ok tt);
}

abbrev pub config : Config
config = record {
  setup_version = draft_07;
  supported_versions = draft_07 ∷ [];
  ignore_max_request_quota = false;
}

abbrev pub publisher : Session
publisher = record (Session.client 4 0 config) {
  selected_version = some draft_07;
  max_request_id = 9;
  pending_streams = insert 0 15 [];
}

abbrev pub relay : Session
relay = record (Session.accept 4 config) {
  control_stream_id = some 0;
  selected_version = some draft_07;
}

abbrev pub relay_state : Session × List ℕ
relay_state = (Session.accept 4 config, [])

abbrev pub ns : Namespace
ns = (0x61 ∷ []) ∷ []

abbrev pub track_name : NamespaceTrackname
track_name = record { namespace = ns; trackname = 0x62 ∷ [] }

-- A poll, an answer that is not there yet, and a read.
reachable-IsSound_example :
    IsSound
      (Receive.read_obj_hdr whole 3 3 0 (Poll.poll whole 3 (Session.accept 4 config, [])).0).0.0
reachable-IsSound_example = reachable-IsSound whole _ (
    Reachable.next _ _
      (Reachable.next _ _ (Reachable.accepted 4 config [])
        (Step.poll 3 (Session.accept 4 config, [])))
      (Step.read_obj_hdr 3 3 0 (Poll.poll whole 3 (Session.accept 4 config, [])).0))

module _ (cm : Enum.ControlMessageEnum) (s : Session) (c b : List ℕ) where
  pub whole_sends :
      s.control_stream_id ≡ some 0
      → in_buffer (Enum.to_bytes (version_or_setup s) cm) ≡ Octets.ok b
      → send_control_message whole cm (s, c) ≡ ((s, c ++ b), ok tt)
  unfolding send_control_message send_all
  whole_sends e f =
      ap
        (λ (i : Option ℕ).
          after (unwrap i (s, c))
            (λ id. send_all whole id (in_buffer (Enum.to_bytes (version_or_setup s) cm))))
        e
      ∙ ap (λ r. send_all whole 0 r (s, c)) f
      ∙ ap (λ t. assert t (s, c ++ b)) ((==_iff (length b) (length b)).1 refl)
