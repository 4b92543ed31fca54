-- ===== src/Wire/Subgroup/RoundTrip.antt =====
use quiche_moq.Common.{
  ==_iff, Bool-cases, Option, arith, contains, false, if◌then◌else◌, inl, inr, leb, leb→le, leb→lt,
  none, refl, some, true, ℕ, ◌<◌, ◌==◌, ◌≡◌, ◌≤◌, ◌⊎◌,
}
use quiche_moq.Octets.{Octets, assert, ok, pure}
use quiche_moq.Octets.Codec.{Codes, branch, done, last, read_check, seq, write_check}
use quiche_moq.Octets.Fields.{HasVarint, IsVarint, u8_codes, varint_codes, varint_field}
use quiche_moq.Wire.Version.{
  IsDraft, Version, between-false, between-true, draft_07, draft_08, draft_10, draft_11, draft_16,
  ranges,
}
use quiche_moq.Wire.Subgroup.{
  SubgroupHeader, subgroup_uni_stream_type_ids, check_type, from_bytes, get_subgroup_id,
  get_subscribe_id, new, put_subgroup_id, put_subscribe_id, subgroup_id_implicit_zero,
  subgroup_id_present, to_bytes,
}

-- The id of the subgroup that a type leaves room for.
abbrev pub HasSubgroupId : ℕ → Option ℕ → Type 0
HasSubgroupId ty subgroup_id =
    (subgroup_id_present ty ≡ true → HasVarint subgroup_id)
    × (subgroup_id_present ty ≡ false
        → subgroup_id ≡ (if subgroup_id_implicit_zero ty then some 0 else none))

pub record IsEncodable (version : Version) (h : SubgroupHeader) : Type 0 where
  pub type_old : version ≤ draft_10 → h.ty ≡ 0x4
  pub type_new : draft_10 < version → contains subgroup_uni_stream_type_ids h.ty ≡ true
  pub alias_fits : IsVarint h.track_alias
  pub group_fits : IsVarint h.group_id
  pub subgroup_old : version ≤ draft_10 → HasVarint h.subgroup_id
  pub subgroup_new : draft_10 < version → HasSubgroupId h.ty h.subgroup_id

type_fits : (ty : ℕ) → contains subgroup_uni_stream_type_ids ty ≡ true → IsVarint ty
type_fits ty h = ground arith

module _ ⦃o : Octets⦄ (version : Version) where
  check_passes :
      {S : Type 0} (h : SubgroupHeader)
      → IsDraft version
      → IsEncodable version h
      → check_type version {S = S} h.ty ≡ pure tt
  unfolding check_type assert
  check_passes h d v = elim (Bool-cases (leb version draft_10)) [
    | inl e ↦ rw (
      between-true draft_07 draft_10 version d.0 (leb→le _ _ e),
      (==_iff h.ty 0x4).1 (v.type_old (leb→le _ _ e)),
    )
    | inr e ↦ rw (
      between-false draft_07 draft_10 version (leb→lt _ _ e),
      between-true draft_11 draft_16 version (omega (arith, leb→lt _ _ e)) d.1,
      v.type_new (leb→lt _ _ e),
    )
  ]

  subscribe_id_codes :
      IsDraft version
      → Codes
          (put_subscribe_id version)
          (get_subscribe_id version)
          (if version == draft_07 then some 0 else none)
  unfolding put_subscribe_id get_subscribe_id
  subscribe_id_codes d = elim (Bool-cases (version == draft_07)) [
    | inl e ↦ rw e (last some (varint_codes 0 (omega arith)))
    | inr e ↦
        let after : draft_08 ≤ version = ground (arith, d.0) in
        rw (e, between-true draft_08 draft_16 version after d.1) (done none)
  ]

  subgroup_id_codes :
      (h : SubgroupHeader)
      → IsDraft version
      → IsEncodable version h
      → Codes
          (put_subgroup_id version h.ty h.subgroup_id)
          (get_subgroup_id version h.ty)
          h.subgroup_id
  unfolding put_subgroup_id get_subgroup_id
  subgroup_id_codes h d v =
      ranges draft_07 draft_10 draft_11 draft_16 version d.0 d.1 (omega arith)
        (λ k. varint_field h.subgroup_id (v.subgroup_old k))
        (λ k.
          branch (subgroup_id_present h.ty)
            (λ e. varint_field h.subgroup_id ((v.subgroup_new k).0 e))
            (λ e. rw ((v.subgroup_new k).1 e) (elim (Bool-cases (subgroup_id_implicit_zero h.ty)) [
              | inl z ↦ rw z (done (some 0))
              | inr z ↦ rw z (done none)
            ])))

  -- In every draft from 07 to 16, a subgroup header with a type of that draft, numbers that fit a
  -- varint and the subgroup id that the type leaves room for passes the assertions of to_bytes and
  -- from_bytes and is read back; a proper prefix of its bytes is answered by buffer_too_short.
  pub subgroup_codes :
      (h : SubgroupHeader)
      → IsDraft version
      → IsEncodable version h
      → Codes (to_bytes version h) (from_bytes version) h
  unfolding to_bytes from_bytes
  subgroup_codes h d v = write_check _ (check_passes h d v) (
      seq _ (varint_codes h.ty (fits (Bool-cases (leb version draft_10)))) (
        read_check _ (check_passes h d v) (
          seq _ (subscribe_id_codes d) (
            seq _ (varint_codes _ v.alias_fits) (
              seq _ (varint_codes _ v.group_fits)
                (seq _ (subgroup_id_codes h d v) (last _ (u8_codes h.publisher_priority))))))))
    where
      fits : (leb version draft_10 ≡ true) ⊎ (leb version draft_10 ≡ false) → IsVarint h.ty
      fits (inl e) = omega (arith, v.type_old (leb→le _ _ e))
      fits (inr e) = type_fits h.ty (v.type_new (leb→lt _ _ e))

-- In every draft from 07 to 16, the header that SubgroupHeader::new makes from numbers that fit a
-- varint can be encoded in that draft.
pub new-IsEncodable :
    (track_alias group_id subgroup_id : ℕ) (version : Version) (h : SubgroupHeader)
    → IsDraft version
    → IsVarint track_alias
    → IsVarint group_id
    → IsVarint subgroup_id
    → new track_alias group_id subgroup_id version ≡ ok h
    → IsEncodable version h
unfolding new subgroup_id_present
new-IsEncodable a g s version h d av gv sv e = elim (Bool-cases (leb version draft_10)) [
  | inl k ↦
      made 0x4 (cc (rw (between-true draft_07 draft_10 version d.0 (leb→le _ _ k)) at e))
        (λ l. refl) (λ l. absurd (omega (arith, leb→le _ _ k)))
  | inr k ↦
      made 0xd
        (cc (
          rw
            (
              between-false draft_07 draft_10 version (leb→lt _ _ k),
              between-true draft_11 draft_16 version (omega (arith, leb→lt _ _ k)) d.1,
            )
            at e))
        (λ l. absurd (omega (arith, leb→lt _ _ k))) (λ l. refl)
]
  where
    made :
        (ty : ℕ)
        → h ≡ record {
          ty = ty;
          track_alias = a;
          group_id = g;
          subgroup_id = some s;
          publisher_priority = 0;
        }
        → (version ≤ draft_10 → ty ≡ 0x4)
        → (draft_10 < version → ty ≡ 0xd)
        → IsEncodable version h
    made ty same old fresh = rw same (record {
      type_old = old;
      type_new = λ l. rw (fresh l);
      alias_fits = av;
      group_fits = gv;
      subgroup_old = λ l. sv;
      subgroup_new = λ l. ((λ z. sv), λ z. cc (rw (fresh l) at z));
    })
