-- ===== src/Wire/Subgroup.antt =====
-- quiche_moq_wire/src/subgroup.rs: the header of a stream that carries a subgroup of objects.
pub mod RoundTrip
use quiche_moq.Common.{Bool, List, Option, [], contains, if◌then◌else◌, none, some, ℕ, ◌==◌, ◌∷◌}
use quiche_moq.Octets.{
  M, Octets, Reader, Result, Writer, assert, ok, panic, panics, pure, ◌>>=◌, ◌>>◌,
}
use quiche_moq.Octets.Codec.{put_unwrapped}
use quiche_moq.Wire.Version.{Version, between, draft_07, draft_08, draft_10, draft_11, draft_16}

pub record SubgroupHeader : Type 0 where
  pub ty : ℕ
  pub track_alias : ℕ
  pub group_id : ℕ
  pub subgroup_id : Option ℕ
  pub publisher_priority : ℕ

unfoldable pub new : ℕ → ℕ → ℕ → Version → Result SubgroupHeader
new track_alias group_id subgroup_id version =
    let with_type : ℕ → SubgroupHeader = λ ty. record {
      ty = ty;
      track_alias = track_alias;
      group_id = group_id;
      subgroup_id = some subgroup_id;
      publisher_priority = 0;
    } in
    if between draft_07 draft_10 version
    then ok (with_type 0x4)
    else if between draft_11 draft_16 version
    then ok (with_type 0xd)
    else panic

unfoldable pub extensions_present : ℕ → Bool
extensions_present ty = contains (0x9 ∷ 0xb ∷ 0xd ∷ []) ty

unfoldable pub subgroup_id_present : ℕ → Bool
subgroup_id_present ty = contains (0xc ∷ 0xd ∷ []) ty

unfoldable pub subgroup_id_implicit_zero : ℕ → Bool
subgroup_id_implicit_zero ty = contains (0x8 ∷ 0x9 ∷ []) ty

abbrev pub subgroup_uni_stream_type_ids : List ℕ
subgroup_uni_stream_type_ids = 0x8 ∷ 0x9 ∷ 0xa ∷ 0xb ∷ 0xc ∷ 0xd ∷ []

module _ (version : Version) where
  -- The assertions on the type, on either side.
  unfoldable pub check_type : {S : Type 0} → ℕ → M S (Unit {0})
  check_type ty =
      if between draft_07 draft_10 version
      then assert (ty == 0x4)
      else if between draft_11 draft_16 version
      then assert (contains subgroup_uni_stream_type_ids ty)
      else panics

  module _ ⦃o : Octets⦄ where
    open o use {get_varint, get_u8, put_varint, put_u8}

    unfoldable pub get_subscribe_id : M Reader (Option ℕ)
    get_subscribe_id =
        if version == draft_07
        then (do subscribe_id ← get_varint; pure (some subscribe_id))
        else if between draft_08 draft_16 version
        then pure none
        else panics

    unfoldable pub get_subgroup_id : ℕ → M Reader (Option ℕ)
    unfolding subgroup_id_present subgroup_id_implicit_zero
    get_subgroup_id ty =
        if between draft_07 draft_10 version
        then (do subgroup_id ← get_varint; pure (some subgroup_id))
        else if between draft_11 draft_16 version
        then (if subgroup_id_present ty
            then (do subgroup_id ← get_varint; pure (some subgroup_id))
            else if subgroup_id_implicit_zero ty
            then pure (some 0)
            else pure none)
        else panics

    unfoldable pub from_bytes : M Reader SubgroupHeader
    unfolding check_type get_subscribe_id get_subgroup_id
    from_bytes = do
      ty ← get_varint
      check_type ty
      subscribe_id ← get_subscribe_id
      track_alias ← get_varint
      group_id ← get_varint
      subgroup_id ← get_subgroup_id ty
      publisher_priority ← get_u8
      pure (record {
        ty = ty;
        track_alias = track_alias;
        group_id = group_id;
        subgroup_id = subgroup_id;
        publisher_priority = publisher_priority;
      })

    unfoldable pub put_subscribe_id : M Writer (Unit {0})
    put_subscribe_id =
        if version == draft_07
        then put_varint 0
        else if between draft_08 draft_16 version
        then pure tt
        else panics

    unfoldable pub put_subgroup_id : ℕ → Option ℕ → M Writer (Unit {0})
    put_subgroup_id ty subgroup_id =
        if between draft_07 draft_10 version
        then put_unwrapped put_varint subgroup_id
        else if between draft_11 draft_16 version
        then (if subgroup_id_present ty then put_unwrapped put_varint subgroup_id else pure tt)
        else panics

    unfoldable pub to_bytes : SubgroupHeader → M Writer (Unit {0})
    unfolding check_type put_subscribe_id put_subgroup_id
    to_bytes h = do
      check_type h.ty
      put_varint h.ty
      put_subscribe_id
      put_varint h.track_alias
      put_varint h.group_id
      put_subgroup_id h.ty h.subgroup_id
      put_u8 h.publisher_priority
