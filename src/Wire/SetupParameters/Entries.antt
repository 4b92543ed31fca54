-- ===== src/Wire/SetupParameters/Entries.antt =====
-- Setup parameters are made again from the parameters that they are written as.
use quiche_moq.Common.{
  ==_iff, All, Bool-cases, Option, [], append-nil, append_assoc, arith, inl, inr, leb, leb→le,
  leb→lt, length, le→leb, map, none, refl, some, ℕ, ◌%◌, ◌++◌, ◌<◌, ◌∷◌, ◌≡◌, ◌≤◌,
}
use quiche_moq.Common.Sorting.{IsSortedFrom, sort_by_key_sorted}
use quiche_moq.Octets.{Octets, ok}
use quiche_moq.Wire.Version.{IsDraft, Version, between-true, draft_07, draft_10, draft_11, draft_15}
use quiche_moq.Wire.Tuple.{Bytes}
use quiche_moq.Wire.Role.{Role, to_id, publisher, subscriber, pub_sub, from_id}
use quiche_moq.Wire.Role
use quiche_moq.Wire.Parameter.{Parameter, ParameterValue, bytes, varint, new_bytes, new_varint}
use quiche_moq.Wire.Parameter.RoundTrip.{IsEncodable, received}
use quiche_moq.Wire.Parameters.{Parameters}
use quiche_moq.Wire.SetupParameters.{
  SetupParameters, apply, empty, entries, from_bytes, push_some, push, to_bytes,
}
use quiche_moq.Octets.Fields.{IsVarint}
use quiche_moq.Octets.Codec.{Codes}
use quiche_moq.Wire.SetupParameters.Collect.{collect}
use quiche_moq.Wire.SetupParameters.RoundTrip.{codes_of_collected, ordered}

-- A parameter that the endpoint has no name for: its type is above those of the known ones, and its
-- value is one that the version can carry.
abbrev pub IsExtra : Version → Parameter → Type 0
IsExtra version p = (2 < p.ty) × (received version p ≡ p)

pub record IsFaithful (version : Version) (s : SetupParameters) : Type 0 where
  pub small : version ≤ draft_10 → (n : ℕ) → s.max_request_id ≡ some n → n < 256
  pub role : draft_07 < version → s.role ≡ none
  pub extra : All (IsExtra version) s.extra_parameters
  pub sorted : draft_15 ≤ version → IsSortedFrom (λ p. p.ty) 2 s.extra_parameters

weaken :
    (lo hi : ℕ) (ps : Parameters)
    → lo ≤ hi
    → IsSortedFrom (λ p. p.ty) hi ps
    → IsSortedFrom (λ p. p.ty) lo ps
weaken lo hi [] h s = tt
weaken lo hi (p ∷ ps) h s = (omega (arith, s.0), s.1)

module _ ⦃o : Octets⦄ (version : Version) where
  apply_extra :
      (s : SetupParameters) (p : Parameter)
      → IsExtra version p
      → apply version s (received version p) ≡ ok (push s p)
  unfolding apply
  apply_extra s p (h, e) = rw e (cases p.ty p.value h)
    where
      cases :
          (ty : ℕ) (v : ParameterValue)
          → 2 < ty
          → apply version s (record { ty = ty; value = v })
            ≡ ok (push s (record { ty = ty; value = v }))
      cases ty (bytes v) h = ground arith
      cases ty (varint v) h = ground arith

  collect_extra :
      (s : SetupParameters) (ps : Parameters)
      → All (IsExtra version) ps
      → collect version s (map (received version) ps)
        ≡ ok (record s { extra_parameters = s.extra_parameters ++ ps })
  unfolding collect push
  collect_extra s [] v = rw (append-nil s.extra_parameters)
  collect_extra s (p ∷ ps) (v, vs) = rw (
    apply_extra s p v,
    collect_extra (push s p) ps vs,
    append_assoc s.extra_parameters (p ∷ []) ps,
  )

  apply_path :
      (s : SetupParameters) (path : Bytes)
      → apply version s (received version (new_bytes 0x01 path))
        ≡ ok (record s { path = some path })
  unfolding apply received new_bytes
  apply_path s path = refl

  apply_max_request_id :
      (s : SetupParameters) (n : ℕ)
      → IsDraft version
      → (version ≤ draft_10 → n < 256)
      → apply version s (received version (new_varint 0x02 n))
        ≡ ok (record s { max_request_id = some n })
  unfolding apply received new_varint
  apply_max_request_id s n d h = elim (Bool-cases (leb version draft_10)) [
    | inl e ↦
        rw (e, between-true draft_07 draft_10 version d.0 (leb→le _ _ e))
          (rw (small (h (leb→le _ _ e))))
    | inr e ↦ rw (e, le→leb draft_11 version (omega (arith, leb→lt _ _ e)))
  ]
    where
      small : n < 256 → n % 256 ≡ n
      small h = omega arith

  apply_role :
      (s : SetupParameters) (r : Role)
      → version ≡ draft_07
      → apply version s (received version (new_varint 0x00 (to_id r)))
        ≡ ok (record s { role = some r })
  unfolding apply received new_varint
  apply_role s r e = rw (
    le→leb version draft_10 (omega arith),
    byte r,
    Role.from_bytes_one version r e,
    (==_iff version draft_07).1 e,
  )
    where
      byte : (r : Role) → to_id r % 256 ≡ to_id r
      byte publisher = unfold to_id in refl
      byte subscriber = unfold to_id in refl
      byte pub_sub = unfold to_id in refl

  collect_role :
      (path : Option Bytes) (n : Option ℕ) (r : Option Role) (ps : Parameters)
      → IsDraft version
      → (draft_07 < version → r ≡ none)
      → All (IsExtra version) ps
      → collect version
          (record { path = path; max_request_id = n; role = none; extra_parameters = [] })
          (map (received version) (push_some (λ r. new_varint 0x00 (to_id r)) r ps))
        ≡ ok (record { path = path; max_request_id = n; role = r; extra_parameters = ps })
  unfolding push_some collect
  collect_role path n none ps d h v = collect_extra _ ps v
  collect_role path n (some r) ps d h v = elim (Bool-cases (leb version draft_07)) [
    | inl e ↦
        rw
          (apply_role
            (record { path = path; max_request_id = n; role = none; extra_parameters = [] }) r
            (omega (arith, leb→le _ _ e)))
          (collect_extra _ ps v)
    | inr e ↦ cc (h (leb→lt _ _ e))
  ]

  collect_max_request_id :
      (path : Option Bytes) (n : Option ℕ) (r : Option Role) (ps : Parameters)
      → IsDraft version
      → (version ≤ draft_10 → (m : ℕ) → n ≡ some m → m < 256)
      → (draft_07 < version → r ≡ none)
      → All (IsExtra version) ps
      → collect version
          (record { path = path; max_request_id = none; role = none; extra_parameters = [] })
          (map
            (received version)
            (push_some (new_varint 0x02) n (push_some (λ r. new_varint 0x00 (to_id r)) r ps)))
        ≡ ok (record { path = path; max_request_id = n; role = r; extra_parameters = ps })
  unfolding push_some collect
  collect_max_request_id path none r ps d k h v = collect_role path none r ps d h v
  collect_max_request_id path (some n) r ps d k h v =
      rw
        (apply_max_request_id
          (record { path = path; max_request_id = none; role = none; extra_parameters = [] }) n d
          (λ l. k l n refl))
        (collect_role path (some n) r ps d h v)

  pub collect-entries :
      (s : SetupParameters)
      → IsDraft version
      → IsFaithful version s
      → collect version empty (map (received version) (entries s)) ≡ ok s
  unfolding entries
  collect-entries s d v = cases s.path
    where
      cases :
          (path : Option Bytes)
          → collect version empty (
              map (received version) (
                push_some (new_bytes 0x01) path (
                  push_some
                    (new_varint 0x02)
                    s.max_request_id
                    (push_some (λ r. new_varint 0x00 (to_id r)) s.role s.extra_parameters))))
            ≡ ok (record s { path = path })
      cases none =
          unfold push_some in
          collect_max_request_id none s.max_request_id s.role s.extra_parameters d v.small v.role
            v.extra
      cases (some path) =
          unfold push_some collect in
          rw (apply_path empty path) (
            collect_max_request_id (some path) s.max_request_id s.role s.extra_parameters d v.small
              v.role v.extra)

  -- On the wire the entries stand in this order already.
  ordered-entries :
      (s : SetupParameters) → IsFaithful version s → ordered version (entries s) ≡ entries s
  unfolding ordered entries push_some new_bytes new_varint
  ordered-entries s v = elim (Bool-cases (leb draft_15 version)) [
    | inl e ↦
        rw (e, v.role (omega (arith, leb→le _ _ e)))
          (sort_by_key_sorted (λ p. p.ty) 1 _
            (cases s.path s.max_request_id (v.sorted (leb→le _ _ e))))
    | inr e ↦ rw e
  ]
    where
      cases :
          (path : Option Bytes) (n : Option ℕ)
          → IsSortedFrom (λ p. p.ty) 2 s.extra_parameters
          → IsSortedFrom
              (λ p. p.ty)
              1
              (push_some (new_bytes 0x01) path (
                push_some
                  (new_varint 0x02)
                  n
                  (push_some (λ r. new_varint 0x00 (to_id r)) none s.extra_parameters)))
      cases none none h = weaken 1 2 s.extra_parameters (omega arith) h
      cases (some path) none h = (omega arith, weaken 1 2 s.extra_parameters (omega arith) h)
      cases none (some n) h = (omega arith, h)
      cases (some path) (some n) h = (omega arith, (omega arith, h))

  -- In every draft from 07 to 16, setup parameters are read back from what to_bytes writes, and a
  -- proper prefix is answered by buffer_too_short, if every entry can be encoded, there are fewer
  -- than 2^62 entries, max_request_id is below 256 up to draft 10, there is no role after draft 07,
  -- and the extra parameters have types above 2, a value that the draft can carry and, from draft
  -- 15 on, sorted types.
  pub setup_parameters_codes :
      (s : SetupParameters)
      → IsDraft version
      → IsFaithful version s
      → IsVarint (length (entries s))
      → All (IsEncodable version) (entries s)
      → Codes (to_bytes version s) (from_bytes version) s
  unfolding to_bytes
  setup_parameters_codes s d v n e =
      codes_of_collected version (entries s) s d n e
        (rw (ordered-entries s v) (collect-entries s d v))
