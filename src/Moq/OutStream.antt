-- ===== src/Moq/OutStream.antt =====
-- quiche_moq/src/out_stream.rs: the state machine of a stream that objects are sent on.
pub mod Headers
pub mod Steps
use quiche_moq.Common.{
  List, Option, [], false, if◌then◌else◌, leb, length, ltb, none, some, true, zeros, ℕ, ◌%◌, ◌+◌,
  ◌-◌, ◌==◌, ◌^◌,
}
use quiche_moq.Common.Outcome.{Outcome, ok, err, panicked}
use quiche_moq.Octets.{M, Octets, Result, Writer, bind}
use quiche_moq.Octets
use quiche_moq.Moq.Error.{
  Error, wire, done, insufficient_capacity, unfinished_payload, exceeded_payload,
}
use quiche_moq.Webtransport.{Transport, Error as WtError}
use quiche_moq.Wire.Version.{Version}
use quiche_moq.Wire.KeyValuePairs.{KeyValuePairs}
use quiche_moq.Wire.Subgroup.{SubgroupHeader}
use quiche_moq.Wire.Subgroup
use quiche_moq.Wire.Object

pub data State : Type 0 where
  subgroup_header : State
  object_header : (subgroup_ty : ℕ) → State
  object_payload : (subgroup_ty remaining_bytes : ℕ) → State

pub record OutStream : Type 0 where
  pub stream_id : ℕ
  pub state : State
  pub track_alias : ℕ
  pub group_id : ℕ
  pub subgroup_id : ℕ
  pub version : Version
  pub next_object_id : ℕ

unfoldable pub new : ℕ → ℕ → ℕ → ℕ → Version → OutStream
new stream_id track_alias group_id subgroup_id version = record {
  stream_id = stream_id;
  state = subgroup_header;
  track_alias = track_alias;
  group_id = group_id;
  subgroup_id = subgroup_id;
  version = version;
  next_object_id = 0;
}

-- What is written into `[0u8; 100]`.
unfoldable pub in_buffer : M Writer (Unit {0}) → Result (List ℕ)
in_buffer p = bind (p (record { written = []; ahead = zeros 100 })) (λ (u, w). Octets.ok w.written)

-- `None` counts on, `Some(id)` is asserted not to be below.
unfoldable pub pick_id : ℕ → Option ℕ → Option ℕ
pick_id next none = some next
pick_id next (some id) = if leb next id then some id else none

-- The stream, the connections and the result.
abbrev pub Sent : Type 0 → Type 0 → Type 0
Sent S A = OutStream × S × Outcome Error A

module _ {S : Type 0} where
  -- The arms of the `match` on what `stream_send_if_capacity` answers.
  unfoldable pub after_send :
      OutStream → (S → Sent S (Unit {0})) → S × Outcome WtError (Unit {0}) → Sent S (Unit {0})
  after_send o next (s, ok u) = next s
  after_send o next (s, err WtError.insufficient_capacity) = (o, s, err insufficient_capacity)
  after_send o next (s, err _) = (o, s, panicked)
  after_send o next (s, panicked) = (o, s, panicked)

  -- The arms of the `match` on what `stream_send` answers.
  unfoldable pub after_payload : OutStream → ℕ → ℕ → S × Outcome WtError ℕ → Sent S ℕ
  after_payload o subgroup_ty remaining_bytes (s, ok n) =
      let left = (remaining_bytes + 2 ^ 64 - n) % 2 ^ 64 in
      (
        record o {
          state = if left == 0 then object_header subgroup_ty else object_payload subgroup_ty left;
        },
        s,
        ok n,
      )
  after_payload o subgroup_ty remaining_bytes (s, err WtError.done) = (o, s, err done)
  after_payload o subgroup_ty remaining_bytes (s, err (WtError.invalid_stream_state i)) =
      (o, s, err done)
  after_payload o subgroup_ty remaining_bytes (s, err WtError.insufficient_capacity) =
      (o, s, err insufficient_capacity)
  after_payload o subgroup_ty remaining_bytes (s, err _) = (o, s, panicked)
  after_payload o subgroup_ty remaining_bytes (s, panicked) = (o, s, panicked)

  module _ (wt : Transport S) where
    -- `to_bytes(&mut o, version)?` and the send of what was written.
    unfoldable pub send_bytes :
        OutStream → (S → Sent S (Unit {0})) → Result (List ℕ) → S → Sent S (Unit {0})
    unfolding after_send
    send_bytes o next (Octets.ok b) s =
        after_send o next (wt.stream_send_if_capacity o.stream_id b false s)
    send_bytes o next (Octets.err e) s = (o, s, err (wire e))
    send_bytes o next Octets.panic s = (o, s, panicked)

    module _ ⦃c : Octets⦄ where
      -- `State::ObjectHeader`
      unfoldable pub send_object_header :
          ℕ → Option ℕ → ℕ → KeyValuePairs → OutStream → S → Sent S (Unit {0})
      unfolding send_bytes in_buffer
      send_object_header subgroup_ty none size extension_headers o s = (o, s, panicked)
      send_object_header subgroup_ty (some id) size extension_headers o s =
          send_bytes o
            (λ s. (
              record o {
                next_object_id = (id + 1) % 2 ^ 64;
                state = object_payload subgroup_ty size;
              },
              s,
              ok tt,
            ))
            (in_buffer
              (Object.to_bytes o.version (Object.new id size subgroup_ty extension_headers)))
            s

      -- `State::SubgroupHeader`, and the second round of the loop.
      unfoldable pub send_subgroup_header :
          Option ℕ → ℕ → KeyValuePairs → OutStream → Result SubgroupHeader → S → Sent S (Unit {0})
      unfolding send_object_header pick_id
      send_subgroup_header object_id size extension_headers o (Octets.ok subgroup) s =
          send_bytes o
            (λ s.
              send_object_header subgroup.ty (pick_id o.next_object_id object_id) size
                extension_headers (record o { state = object_header subgroup.ty }) s)
            (in_buffer (Subgroup.to_bytes o.version subgroup)) s
      send_subgroup_header object_id size extension_headers o (Octets.err e) s =
          (o, s, err (wire e))
      send_subgroup_header object_id size extension_headers o Octets.panic s = (o, s, panicked)

      -- The `match self.state`.
      unfoldable pub send_in_state :
          State → Option ℕ → ℕ → KeyValuePairs → OutStream → S → Sent S (Unit {0})
      unfolding send_subgroup_header
      send_in_state subgroup_header object_id size extension_headers o s =
          send_subgroup_header object_id size extension_headers o
            (Subgroup.new o.track_alias o.group_id o.subgroup_id o.version) s
      send_in_state (object_header subgroup_ty) object_id size extension_headers o s =
          send_object_header subgroup_ty (pick_id o.next_object_id object_id) size extension_headers
            o s
      send_in_state (object_payload subgroup_ty remaining_bytes) object_id size extension_headers o
            s =
          (o, s, err unfinished_payload)

      unfoldable pub send_obj_hdr : Option ℕ → ℕ → KeyValuePairs → OutStream → S → Sent S (Unit {0})
      unfolding send_in_state
      send_obj_hdr object_id size extension_headers o s =
          if leb 1 size
          then send_in_state o.state object_id size extension_headers o s
          else (o, s, panicked)

    unfoldable pub payload_in_state : State → List ℕ → OutStream → S → Sent S ℕ
    unfolding after_payload
    payload_in_state subgroup_header buf o s = (o, s, panicked)
    payload_in_state (object_header subgroup_ty) buf o s = (o, s, panicked)
    payload_in_state (object_payload subgroup_ty remaining_bytes) buf o s =
        if ltb remaining_bytes (length buf)
        then (o, s, err exceeded_payload)
        else after_payload o subgroup_ty remaining_bytes (wt.stream_send o.stream_id buf false s)

    unfoldable pub send_obj_pld : List ℕ → OutStream → S → Sent S ℕ
    unfolding payload_in_state
    send_obj_pld buf o s = payload_in_state o.state buf o s

    -- `.ok()` drops what the call answers.
    unfoldable pub fin : OutStream → S → Sent S (Unit {0})
    fin o s = elim o.state [
      | object_payload subgroup_ty remaining_bytes ↦ (o, s, panicked)
      | _ ↦ (o, (wt.stream_send o.stream_id [] true s).0, ok tt)
    ]

    -- `unwrap` of what `send_obj_pld` returns, and the assertion on it.
    unfoldable pub all_sent : ℕ → Sent S ℕ → Sent S (Unit {0})
    all_sent size (o, s, ok n) = if n == size then (o, s, ok tt) else (o, s, panicked)
    all_sent size (o, s, err e) = (o, s, panicked)
    all_sent size (o, s, panicked) = (o, s, panicked)

    unfoldable pub send_payload : List ℕ → Sent S (Unit {0}) → Sent S (Unit {0})
    unfolding send_obj_pld all_sent
    send_payload buf (o, s, ok u) = all_sent (length buf) (send_obj_pld buf o s)
    send_payload buf (o, s, err e) = (o, s, err e)
    send_payload buf (o, s, panicked) = (o, s, panicked)

    unfoldable pub send_obj : ⦃c : Octets⦄ → List ℕ → OutStream → S → Sent S (Unit {0})
    unfolding send_obj_hdr send_payload
    send_obj buf o s = send_payload buf (send_obj_hdr none (length buf) [] o s)
