-- ===== src/Moq/OutStream/Steps.antt =====
-- What the calls on a stream keep: payload is never asked for beyond what the header announced.
use quiche_moq.Common.{
  ==_iff, Bool-cases, List, arith, false, inl, inr, length, ltb, ltb→le, refl, ℕ, ◌%◌, ◌+◌, ◌-◌,
  ◌<◌, ◌==◌, ◌^◌, ◌≡◌, ◌≢◌, ◌≤◌,
}
use quiche_moq.Common.Outcome.{Outcome, ok, err, panicked}
use quiche_moq.Webtransport.{IsSender, Transport, Error as WtError}
use quiche_moq.Moq.OutStream.{
  OutStream, Sent, State, after_payload, object_header, object_payload, payload_in_state,
  send_obj_pld, subgroup_header,
}

-- While a payload is in progress, some of it is left.
abbrev pub IsState : State → Type 0
IsState subgroup_header = Unit {0}
IsState (object_header ty) = Unit {0}
IsState (object_payload ty left) = (1 ≤ left) × (left < 2 ^ 64)

-- How much payload has to come before the next object.
unfoldable pub remaining : State → ℕ
remaining subgroup_header = 0
remaining (object_header ty) = 0
remaining (object_payload ty left) = left

-- The subtraction on 64 bits, where nothing wraps.
subtract : (left n : ℕ) → n ≤ left → left < 2 ^ 64 → (left + 2 ^ 64 - n) % 2 ^ 64 ≡ left - n
subtract left n h l = omega arith

module _ {S : Type 0} (wt : Transport S) where
  -- The outcomes of `send_obj_pld` from a payload of `left` bytes.
  abbrev pub Paid : State → List ℕ → Sent S ℕ → Type 0
  Paid st buf (o, s, ok n) =
      (n ≤ length buf) × (remaining o.state + n ≡ remaining st) × IsState o.state
  Paid st buf (o, s, err e) = o.state ≡ st
  Paid st buf (o, s, panicked) = o.state ≡ st

  after_payload_facts :
      (o : OutStream) (ty left : ℕ) (buf : List ℕ) (answer : S × Outcome WtError ℕ)
      → o.state ≡ object_payload ty left
      → (1 ≤ left) × (left < 2 ^ 64)
      → length buf ≤ left
      → ((n : ℕ) → answer.1 ≡ ok n → n ≤ length buf)
      → Paid (object_payload ty left) buf (after_payload o ty left answer)
  unfolding after_payload remaining
  after_payload_facts o ty left buf (s, ok n) e v h f =
      let fits = f n refl in
      let same = subtract left n (omega (arith, fits, h)) v.1 in
      elim (Bool-cases ((left + 2 ^ 64 - n) % 2 ^ 64 == 0)) [
        | inl k ↦ let z = (==_iff _ 0).0 k in rw k (fits, omega (arith, z, same, fits, h), tt)
        | inr k ↦
            let z : (left + 2 ^ 64 - n) % 2 ^ 64 ≢ 0 = λ q. cc ((==_iff _ 0).1 q, k) in
            rw k (
              fits,
              omega (arith, same, fits, h),
              (omega (arith, z, same), omega (arith, same, v.1)),
            )
      ]
  after_payload_facts o ty left buf (s, err WtError.done) e v h f = e
  after_payload_facts o ty left buf (s, err WtError.missing_session_id) e v h f = e
  after_payload_facts o ty left buf (s, err WtError.no_stream_state) e v h f = e
  after_payload_facts o ty left buf (s, err WtError.insufficient_capacity) e v h f = e
  after_payload_facts o ty left buf (s, err WtError.fin) e v h f = e
  after_payload_facts o ty left buf (s, err (WtError.stream_reset i)) e v h f = e
  after_payload_facts o ty left buf (s, err (WtError.invalid_stream_state i)) e v h f = e
  after_payload_facts o ty left buf (s, panicked) e v h f = e

  -- For a transport that takes no more bytes than it is given, as a WebTransport connection does,
  -- and a stream that is not in the middle of a payload or has between 1 and 2^64 - 1 bytes of it
  -- left: if send_obj_pld returns n, then n is at most the length of buf, n bytes fewer of the
  -- payload are left, and the state is in order again; if it returns an error or panics, the state
  -- is the one before.
  pub send_obj_pld-IsState :
      (buf : List ℕ) (o : OutStream) (s : S)
      → IsState o.state
      → IsSender wt
      → Paid o.state buf (send_obj_pld wt buf o s)
  unfolding send_obj_pld payload_in_state
  send_obj_pld-IsState buf o s v w = cases o.state refl v
    where
      cases :
          (st : State) → o.state ≡ st → IsState st → Paid st buf (payload_in_state wt st buf o s)
      cases subgroup_header e v = e
      cases (object_header ty) e v = e
      cases (object_payload ty left) e v = elim (Bool-cases (ltb left (length buf))) [
        | inl k ↦ rw k e
        | inr k ↦ rw k (
            after_payload_facts o ty left buf (wt.stream_send o.stream_id buf false s) e v
              (ltb→le _ _ k) (λ n h. w o.stream_id buf false s n h))
      ]
