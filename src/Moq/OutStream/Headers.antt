-- ===== src/Moq/OutStream/Headers.antt =====
-- What a header call leaves: an object is announced as a whole, or nothing changes for the objects.
use quiche_moq.Common.{
  Bool-cases, List, Option, ap, arith, false, inl, inr, leb, leb→le, none, refl, some, ℕ, ◌%◌, ◌+◌,
  ◌^◌, ◌≡◌, ◌≤◌,
}
use quiche_moq.Common.Outcome.{Outcome, ok, err, panicked}
use quiche_moq.Octets.{Octets, Result}
use quiche_moq.Octets
use quiche_moq.Wire.KeyValuePairs.{KeyValuePairs}
use quiche_moq.Wire.Subgroup.{SubgroupHeader}
use quiche_moq.Moq.Error.{Error, wire}
use quiche_moq.Webtransport.{Transport, Error as WtError}
use quiche_moq.Moq.OutStream.{
  OutStream, Sent, State, after_send, object_header, object_payload, pick_id, send_bytes,
  send_in_state, send_obj_hdr, send_object_header, send_subgroup_header, subgroup_header,
}
use quiche_moq.Moq.OutStream.Steps.{remaining}

-- From the next id `next` and `left` bytes of payload to come, for an object of `size` bytes.
abbrev pub Announced : {S : Type 0} → ℕ → ℕ → ℕ → Option ℕ → Sent S (Unit {0}) → Type 0
Announced next left size object_id (o, s, ok u) =
    (1 ≤ size)
    × (left ≡ 0)
    × (remaining o.state ≡ size)
    × ((id : ℕ) × (pick_id next object_id ≡ some id)
        × (next ≤ id)
        × (o.next_object_id ≡ (id + 1) % 2 ^ 64))
Announced next left size object_id (o, s, err e) =
    (o.next_object_id ≡ next) × (remaining o.state ≡ left)
Announced next left size object_id (o, s, panicked) =
    (o.next_object_id ≡ next) × (remaining o.state ≡ left)

pick_id-le : (next id : ℕ) (object_id : Option ℕ) → pick_id next object_id ≡ some id → next ≤ id
unfolding pick_id
pick_id-le next id none e = let z : next ≡ id = cc e in omega (arith, z)
pick_id-le next id (some x) e = elim (Bool-cases (leb next x)) [
  | inl k ↦ let z : x ≡ id = cc (rw k at e) in omega (arith, z, leb→le _ _ k)
  | inr k ↦ absurd (cc (rw k at e))
]

module _ {S : Type 0} (P : Sent S (Unit {0}) → Type 0) (o : OutStream)
    (next : S → Sent S (Unit {0})) (go : (s : S) → P (next s))
    (stop : (s : S) (e : Error) → P (o, s, err e)) (halt : (s : S) → P (o, s, panicked)) where
  -- Bytes are sent, and the call goes on; or it ends with the stream as it is.
  after_send_cases : (answer : S × Outcome WtError (Unit {0})) → P (after_send o next answer)
  unfolding after_send
  after_send_cases (s, ok u) = go s
  after_send_cases (s, err WtError.done) = halt s
  after_send_cases (s, err WtError.missing_session_id) = halt s
  after_send_cases (s, err WtError.no_stream_state) = halt s
  after_send_cases (s, err WtError.insufficient_capacity) = stop s _
  after_send_cases (s, err WtError.fin) = halt s
  after_send_cases (s, err (WtError.stream_reset i)) = halt s
  after_send_cases (s, err (WtError.invalid_stream_state i)) = halt s
  after_send_cases (s, panicked) = halt s

  send_bytes_cases : (wt : Transport S) (r : Result (List ℕ)) (s : S) → P (send_bytes wt o next r s)
  unfolding send_bytes
  send_bytes_cases wt (Octets.ok b) s =
      after_send_cases (wt.stream_send_if_capacity o.stream_id b false s)
  send_bytes_cases wt (Octets.err e) s = stop s (wire e)
  send_bytes_cases wt Octets.panic s = halt s

module _ {S : Type 0} (wt : Transport S) ⦃c : Octets⦄ (object_id : Option ℕ) (size : ℕ)
    (extension_headers : KeyValuePairs) (h : 1 ≤ size) where
  object_Announced :
      (ty : ℕ) (o : OutStream) (pick : Option ℕ) (s : S)
      → remaining o.state ≡ 0
      → pick_id o.next_object_id object_id ≡ pick
      → Announced o.next_object_id 0 size object_id
          (send_object_header wt ty pick size extension_headers o s)
  unfolding send_object_header remaining
  object_Announced ty o none s z e = (refl, z)
  object_Announced ty o (some id) s z e =
      send_bytes_cases (Announced o.next_object_id 0 size object_id) o
        (λ s. (
          record o { next_object_id = (id + 1) % 2 ^ 64; state = object_payload ty size },
          s,
          ok tt,
        ))
        (λ s. (h, refl, refl, (id, e, pick_id-le _ _ object_id e, refl))) (λ s e. (refl, z))
        (λ s. (refl, z)) wt _ s

  subgroup_Announced :
      (o : OutStream) (r : Result SubgroupHeader) (s : S)
      → remaining o.state ≡ 0
      → Announced o.next_object_id 0 size object_id
          (send_subgroup_header wt object_id size extension_headers o r s)
  unfolding send_subgroup_header remaining
  subgroup_Announced o (Octets.ok subgroup) s z =
      send_bytes_cases (Announced o.next_object_id 0 size object_id) o
        (λ s.
          send_object_header wt subgroup.ty (pick_id o.next_object_id object_id) size
            extension_headers (record o { state = object_header subgroup.ty }) s)
        (λ s.
          object_Announced subgroup.ty (record o { state = object_header subgroup.ty }) _ s refl
            refl)
        (λ s e. (refl, z)) (λ s. (refl, z)) wt _ s
  subgroup_Announced o (Octets.err e) s z = (refl, z)
  subgroup_Announced o Octets.panic s z = (refl, z)

  in_state_Announced :
      (st : State) (o : OutStream) (s : S)
      → o.state ≡ st
      → Announced o.next_object_id
          (remaining st)
          size
          object_id
          (send_in_state wt st object_id size extension_headers o s)
  unfolding send_in_state remaining
  in_state_Announced subgroup_header o s e = subgroup_Announced o _ s (ap remaining e)
  in_state_Announced (object_header ty) o s e = object_Announced ty o _ s (ap remaining e) refl
  in_state_Announced (object_payload ty left) o s e = (refl, ap remaining e)

-- For every transport, state, object id, size and extension headers: if send_obj_hdr returns ok,
-- the size is positive, no payload was in progress, the whole size is left to send, and the next
-- object id is, on 64 bits, one above the id taken, which is the given one or else the next one and
-- is never below the next one; if it returns an error or panics, in either round of its loop, the
-- next object id and the payload that is left are as before, so that the call can be made again.
pub send_obj_hdr-Announced :
    {S : Type 0} (wt : Transport S) ⦃c : Octets⦄ (object_id : Option ℕ) (size : ℕ)
    (extension_headers : KeyValuePairs) (o : OutStream) (s : S)
    → Announced o.next_object_id
        (remaining o.state)
        size
        object_id
        (send_obj_hdr wt object_id size extension_headers o s)
unfolding send_obj_hdr
send_obj_hdr-Announced wt object_id size extension_headers o s = elim (Bool-cases (leb 1 size)) [
  | inl k ↦
      rw k (in_state_Announced wt object_id size extension_headers (leb→le _ _ k) o.state o s refl)
  | inr k ↦ rw k (refl, refl)
]
