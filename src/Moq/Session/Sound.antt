-- ===== src/Moq/Session/Sound.antt =====
-- What holds of every session: its requests have ids of its own parity, the namespaces of the peer are
-- under ids of the other and within the quota, and its streams are linked to its tracks.
pub mod Handle
pub mod Poll
pub mod Receive
pub mod Requests
pub mod Send
use quiche_moq.Common.{Bool, [], arith, if◌then◌else◌, refl, some, ℕ, ◌%◌, ◌+◌, ◌^◌, ◌≡◌, ◌≤◌}
use quiche_moq.Common.Map.{Each, Every, Map, get, insert-Each, remove-Each}
use quiche_moq.Wire.Namespace.{Namespace}
use quiche_moq.Wire.Control.PublishNamespace.{PublishNamespaceMessage}
use quiche_moq.Wire.Control.SubscribeOk.{SubscribeOkMessage}
use quiche_moq.Wire.Control.RequestError.{RequestErrorMessage}
use quiche_moq.Moq.Session.{PendingSubscribe, Response, Session, accept, client, Config}
use quiche_moq.Moq.Session.Handle.{on_accepted, on_rejected}
use quiche_moq.Moq.Session.Linked.{Linked, adopt-IsLinked}

-- A client's ids are even, a server's odd.
abbrev pub own : Bool → ℕ
own server = if server then 1 else 0

abbrev pub peer : Bool → ℕ
peer server = if server then 0 else 1

abbrev pub Own : Bool → {V : Type 0} → Map V → Type 0
Own server = Each (λ id v. id % 2 ≡ own server)

pub record Issues (server : Bool) (next : ℕ) (pending : Map PendingSubscribe)
    (responses : Map Response) (active : Map ℕ) (announced : Map PublishNamespaceMessage)
    (sent : Map Namespace) : Type 0 where
  pub next_own : next % 2 ≡ own server
  pub pending_own : Own server pending
  pub responses_own : Own server responses
  pub active_own : Own server active
  pub announced_own : Own server announced
  pub sent_own : Own server sent

abbrev pub Theirs : Bool → ℕ → {V : Type 0} → Map V → Type 0
Theirs server quota = Each (λ id v. (id % 2 ≡ peer server) × (id ≤ quota))

-- What `accept` and `connect` allow the peer.
abbrev pub quota_of : Bool → ℕ
quota_of server = if server then 0 else 100

pub record Takes (server : Bool) (expected quota : ℕ) (pending : Map PublishNamespaceMessage)
    (received : Map Namespace) : Type 0 where
  pub quota_own : quota ≡ quota_of server
  pub expected_peer : expected % 2 ≡ peer server
  pub pending_peer : Theirs server quota pending
  pub received_peer : Every (λ id v. (id % 2 ≡ peer server) × (id ≤ quota)) received

abbrev pub IssuesOf : Session → Type 0
IssuesOf s =
    Issues s.server s.next_request_id s.pending_subscribe s.pending_subscribe_responses
      s.active_subscriptions s.pending_sent_publish_namespace s.sent_namespaces

abbrev pub TakesOf : Session → Type 0
TakesOf s =
    Takes s.server s.next_expected_request_id s.out_max_request_id
      s.pending_received_publish_namespace s.received_namespaces

abbrev pub IsSound : Session → Type 0
IsSound s = IssuesOf s × TakesOf s × Linked s

-- The counter of ids goes on by two, on 64 bits.
pub plus_two : (n r : ℕ) → n % 2 ≡ r → (n + 2) % 2 ^ 64 % 2 ≡ r
plus_two n r e = omega (arith, e)

nothing : {V : Type 0} (P : ℕ → V → Type 0) → Each P []
unfolding get
nothing P k v e = absurd (cc e)

pub accept-IsSound : (session_id : ℕ) (config : Config) → IsSound (accept session_id config)
unfolding accept
accept-IsSound session_id config = (
  record {
    next_own = refl;
    pending_own = nothing _;
    responses_own = nothing _;
    active_own = nothing _;
    announced_own = nothing _;
    sent_own = nothing _;
  },
  record { quota_own = refl; expected_peer = refl; pending_peer = nothing _; received_peer = tt },
  record { holds = nothing _; waits = nothing _; apart = nothing _ },
)

pub client-IsSound : (session_id id : ℕ) (config : Config) → IsSound (client session_id id config)
unfolding client accept
client-IsSound session_id id config = (
  record {
    next_own = refl;
    pending_own = nothing _;
    responses_own = nothing _;
    active_own = nothing _;
    announced_own = nothing _;
    sent_own = nothing _;
  },
  record { quota_own = refl; expected_peer = refl; pending_peer = nothing _; received_peer = tt },
  record { holds = nothing _; waits = nothing _; apart = nothing _ },
)

on_accepted-IsSound :
    (request_id track_alias : ℕ) (req : PendingSubscribe) (cm : SubscribeOkMessage) (s : Session)
    → get s.pending_subscribe request_id ≡ some req
    → IsSound s
    → IsSound (on_accepted request_id track_alias cm s)
unfolding on_accepted
on_accepted-IsSound id a req cm s e (i, t, l) = (
  record {
    next_own = i.next_own;
    pending_own = remove-Each _ id s.pending_subscribe i.pending_own;
    responses_own = insert-Each _ id _ _ i.responses_own (i.pending_own id req e);
    active_own = insert-Each _ id _ _ i.active_own (i.pending_own id req e);
    announced_own = i.announced_own;
    sent_own = i.sent_own;
  },
  t,
  adopt-IsLinked s.in_streams s.in_tracks s.pending_streams l a,
)

on_rejected-IsSound :
    (req : PendingSubscribe) (cm : RequestErrorMessage) (s : Session)
    → get s.pending_subscribe cm.request_id ≡ some req
    → IsSound s
    → IsSound (on_rejected cm s)
unfolding on_rejected
on_rejected-IsSound req cm s e (i, t, l) = (
  record {
    next_own = i.next_own;
    pending_own = remove-Each _ cm.request_id s.pending_subscribe i.pending_own;
    responses_own =
        insert-Each _ cm.request_id _ _ i.responses_own (i.pending_own cm.request_id req e);
    active_own = i.active_own;
    announced_own = i.announced_own;
    sent_own = i.sent_own;
  },
  t,
  l,
)
