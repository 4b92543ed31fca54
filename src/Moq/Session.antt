-- ===== src/Moq/Session.antt =====
-- quiche_moq/src/session.rs: the state of a session, how it begins, and how control messages are
-- sent.
pub mod Announcing
pub mod Exchange
pub mod Handle
pub mod Linked
pub mod Messages
pub mod Panicking
pub mod Poll
pub mod Reachable
pub mod Reading
pub mod Receive
pub mod Requests
pub mod Send
pub mod Sound
pub mod Subscribing
mod Tests
use quiche_moq.Common.{Bool, List, Option, [], false, length, none, some, true, zeros, ℕ, ◌==◌}
use quiche_moq.Common.Map.{Map}
use quiche_moq.Common.Outcome.{Outcome}
use quiche_moq.Octets.{Octets, Result}
use quiche_moq.Octets
use quiche_moq.ShortBuf.{ShortBuf}
use quiche_moq.ShortBuf
use quiche_moq.Wire.Version.{Version}
use quiche_moq.Wire.Role
use quiche_moq.Wire.Namespace.{Namespace}
use quiche_moq.Wire.SetupParameters.{SetupParameters}
use quiche_moq.Wire.Control.Enum.{ControlMessageEnum}
use quiche_moq.Wire.Control.Enum
use quiche_moq.Wire.Control.Subscribe.{SubscribeMessage}
use quiche_moq.Wire.Control.SubscribeOk.{SubscribeOkMessage}
use quiche_moq.Wire.Control.RequestError.{RequestErrorMessage}
use quiche_moq.Wire.Control.PublishNamespace.{PublishNamespaceMessage}
use quiche_moq.Webtransport.{Transport}
use quiche_moq.Moq.Action.{Action, Reply, ok, panicked, unwrapped, unwrap, assert, after, ◌>>=◌}
use quiche_moq.Moq.InStream.{InStream}
use quiche_moq.Moq.InTrack.{InTrack}
use quiche_moq.Moq.OutStream.{OutStream, in_buffer}
use quiche_moq.Moq.OutTrack.{OutTrack}

-- config.rs
pub record Config : Type 0 where
  pub setup_version : Version
  pub supported_versions : List Version
  pub ignore_max_request_quota : Bool

-- pending_subscribe.rs
pub record PendingSubscribe : Type 0 where
  pub track_alias : Option ℕ

-- `Result<(TrackAlias, SubscribeOkMessage), RequestErrorMessage>`
pub data Response : Type 0 where
  accepted : (track_alias : ℕ) → SubscribeOkMessage → Response
  rejected : RequestErrorMessage → Response

pub record Session : Type 0 where
  pub server : Bool
  pub control_stream_id : Option ℕ
  pub webtransport_session_id : ℕ
  pub ctrl_buf : ShortBuf
  pub selected_version : Option Version
  pub next_request_id : ℕ
  pub next_expected_request_id : ℕ
  pub max_request_id : ℕ
  pub out_max_request_id : ℕ
  pub in_streams : Map InStream
  pub in_tracks : Map InTrack
  pub out_tracks : Map OutTrack
  pub next_out_track_alias : ℕ
  pub active_subscriptions : Map ℕ
  pub pending_subscribe : Map PendingSubscribe
  pub pending_subscribe_responses : Map Response
  pub pending_streams : Map ℕ
  pub pending_received_subscriptions : Map SubscribeMessage
  pub pending_received_publish_namespace : Map PublishNamespaceMessage
  pub out_streams : Map OutStream
  pub config : Config
  pub closed : Bool
  pub sent_namespaces : Map Namespace
  pub received_namespaces : Map Namespace
  pub pending_sent_publish_namespace : Map PublishNamespaceMessage

unfoldable pub initialized : Session → Bool
initialized s = elim s.selected_version [ none ↦ false | some v ↦ true ]

unfoldable pub accept : ℕ → Config → Session
accept session_id config = record {
  server = true;
  control_stream_id = none;
  webtransport_session_id = session_id;
  ctrl_buf = ShortBuf.new (zeros 1024);
  selected_version = none;
  next_request_id = 1;
  next_expected_request_id = 0;
  max_request_id = 0;
  out_max_request_id = 0;
  in_streams = [];
  in_tracks = [];
  out_tracks = [];
  next_out_track_alias = 0;
  active_subscriptions = [];
  pending_subscribe = [];
  pending_subscribe_responses = [];
  pending_streams = [];
  pending_received_subscriptions = [];
  pending_received_publish_namespace = [];
  out_streams = [];
  config = config;
  closed = false;
  sent_namespaces = [];
  received_namespaces = [];
  pending_sent_publish_namespace = [];
}

-- The session that `connect` makes before it sends the setup message.
unfoldable pub client : ℕ → ℕ → Config → Session
unfolding accept
client session_id control_stream_id config = record (accept session_id config) {
  server = false;
  control_stream_id = some control_stream_id;
  next_request_id = 0;
  next_expected_request_id = 1;
  out_max_request_id = 100;
}

abbrev pub setup_parameters : ℕ → SetupParameters
setup_parameters max_request_id = record {
  path = none;
  max_request_id = some max_request_id;
  role = some Role.pub_sub;
  extra_parameters = [];
}

-- `s.selected_version.unwrap_or(s.config.setup_version)`
unfoldable pub version_or_setup : Session → Version
version_or_setup s = elim s.selected_version [ none ↦ s.config.setup_version | some v ↦ v ]

module _ {S : Type 0} where
  abbrev pub self : Action (Session × S) Session
  self t = (t, ok t.0)

  abbrev pub update : (Session → Session) → Action (Session × S) (Unit {0})
  update f t = ((f t.0, t.1), ok tt)

  module _ (wt : Transport S) where
    -- `stream_send(...).unwrap()` and `assert_eq!(n, len)`, behind `to_bytes(...).unwrap()`
    unfoldable pub send_all : ℕ → Result (List ℕ) → Action (Session × S) (Unit {0})
    send_all control_stream_id (Octets.ok b) (s, c) =
        let sent = wt.stream_send control_stream_id b false c in
        after ((s, sent.0), unwrapped sent.1) (λ n. assert (n == length b))
    send_all control_stream_id (Octets.err e) t = (t, panicked)
    send_all control_stream_id Octets.panic t = (t, panicked)

    module _ ⦃o : Octets⦄ where
      unfoldable pub send_control_message : ControlMessageEnum → Action (Session × S) (Unit {0})
      unfolding send_all in_buffer
      send_control_message cm = do
        s ← self
        control_stream_id ← unwrap s.control_stream_id
        send_all control_stream_id (in_buffer (Enum.to_bytes (version_or_setup s) cm))

      -- The session is `none` where `open_stream(...).unwrap()` panics.
      unfoldable pub connect : ℕ → Config → S → Option (Session × S × Reply (Unit {0}))
      unfolding send_control_message client
      connect session_id config c =
          let opened = wt.open_stream session_id true c in
          elim opened.1 [
            | Outcome.ok id ↦
                let r =
                  send_control_message
                    (Enum.client_setup (record {
                      supported_versions = config.supported_versions;
                      setup_parameters = setup_parameters 100;
                    }))
                    (client session_id id config, opened.0) in
                some (r.0.0, r.0.1, r.1)
            | Outcome.err e ↦ none
            | Outcome.panicked ↦ none
          ]
