-- ===== src/Wire/Object/RoundTrip.antt =====
use quiche_moq.Common.{
  ==_iff, Bool-cases, [], ap, arith, if◌then◌else◌, inl, inr, leb, length, plus_zero, suc, sym,
  ◌++◌, ◌==◌, ◌∙◌, ◌≡◌, ◌≢◌, ◌⊎◌,
}
use quiche_moq.Octets.{Octets, pure, ◌>>=◌, ◌>>◌}
use quiche_moq.Octets.Codec.{Codes, branch, done, last, put_unwrapped, seq}
use quiche_moq.Octets.Fields.{
  HasVarint, IsAbsent, IsVarint, absent_codes, varint_codes, varint_field,
}
use quiche_moq.Common.Sorting.{sort_by_key}
use quiche_moq.Octets.Growth.{codes-bytes}
use quiche_moq.Wire.Version.{Version, draft_15}
use quiche_moq.Wire.KeyValuePairs.{KeyValuePairs, byte_length, ordered}
use quiche_moq.Wire.KeyValuePairs
use quiche_moq.Wire.KeyValuePairs.RoundTrip.{AreEncodable, ordered-AreEncodable, ordered-IsOrdered}
use quiche_moq.Wire.KeyValuePairs.RoundTrip as Pairs
use quiche_moq.Wire.KeyValuePairs.Length.{length-codes}
use quiche_moq.Wire.Object.{
  ObjectHeader, from_bytes, get_extension_headers, get_extensions, get_status,
  put_extension_headers, to_bytes,
}
use quiche_moq.Wire.Object.Loop.{Reads, pairs_read}
use quiche_moq.Wire.Subgroup.{SubgroupHeader}

pub record IsEncodable ⦃o : Octets⦄ (version : Version) (h : ObjectHeader) : Type 0 where
  pub id_fits : IsVarint h.id
  pub payload_fits : IsVarint h.payload_len
  pub kind : (h.subgroup_ty ≡ 0x4) ⊎ (h.subgroup_ty ≡ 0xd)
  pub none_old : h.subgroup_ty ≡ 0x4 → h.extension_headers ≡ []
  pub pairs : AreEncodable h.extension_headers
  pub length_fits : IsVarint (byte_length version h.extension_headers)
  pub status_empty : h.payload_len ≡ 0 → HasVarint h.status
  pub status_full : h.payload_len ≢ 0 → IsAbsent h.status

module _ ⦃o : Octets⦄ (version : Version) where
  length_bytes :
      (kvps : KeyValuePairs) (v : AreEncodable kvps) (t : Reads version 0 (ordered version kvps))
      → length t.bytes ≡ byte_length version kvps
  length_bytes kvps v t =
      sym (
        ap length (
          codes-bytes (Pairs.key_value_pairs_codes version kvps v) t.bytes
            (λ w. unfold KeyValuePairs.to_bytes in t.puts w)))
      ∙ length-codes version kvps v

  -- Extension headers come back in the order in which they are written.
  pub extension_codes :
      (kvps : KeyValuePairs)
      → AreEncodable kvps
      → IsVarint (byte_length version kvps)
      → Codes
          (o.put_varint (byte_length version kvps) >> KeyValuePairs.to_bytes version kvps)
          (o.get_varint >>= get_extensions version)
          (ordered version kvps)
  unfolding get_extensions KeyValuePairs.to_bytes
  extension_codes kvps v n =
      let t =
        pairs_read version 0 (ordered version kvps) (ordered-AreEncodable version kvps v)
          (ordered-IsOrdered version kvps) in
      let l = length_bytes kvps v t in
      seq _ (varint_codes _ n) (record {
        bytes = t.bytes;
        puts = t.puts;
        gets = λ r. rw (← l) (
            rw (plus_zero (length (t.bytes ++ r)), plus_zero (length t.bytes)) at
              (t.gets (suc (length t.bytes)) 0 r (omega arith)));
        cuts = λ r cut. rw (← l) (
            rw (plus_zero (length r), plus_zero (length t.bytes)) at
              (t.cuts (suc (length t.bytes)) 0 r (omega arith) cut));
      })

  -- Extension headers as a reader sees them.
  abbrev pub received : ObjectHeader → ObjectHeader
  received h = record h { extension_headers = ordered version h.extension_headers }

  ordered-nil : ordered version [] ≡ []
  unfolding ordered sort_by_key
  ordered-nil = elim (Bool-cases (leb draft_15 version)) [ inl e ↦ rw e | inr e ↦ rw e ]

  headers_codes :
      (h : ObjectHeader)
      → IsEncodable version h
      → Codes
          (put_extension_headers version h.subgroup_ty h.extension_headers)
          (get_extension_headers version h.subgroup_ty)
          (ordered version h.extension_headers)
  unfolding put_extension_headers get_extension_headers
  headers_codes h v = elim v.kind [
    | inl e ↦ rw (e, v.none_old e, ordered-nil) (done [])
    | inr e ↦ rw e (extension_codes h.extension_headers v.pairs v.length_fits)
  ]

  status_codes :
      (h : ObjectHeader)
      → IsEncodable version h
      → Codes
          (if h.payload_len == 0 then put_unwrapped o.put_varint h.status else pure tt)
          (get_status version h.payload_len)
          h.status
  unfolding get_status
  status_codes h v =
      branch (h.payload_len == 0)
        (λ e. varint_field h.status (v.status_empty ((==_iff h.payload_len 0).0 e)))
        (λ e. absent_codes h.status (v.status_full (λ z. cc ((==_iff h.payload_len 0).1 z, e))))

  -- An object header of a subgroup of type 0x4 or 0xd, whose numbers fit a varint, which has
  -- extension headers in a subgroup of type 0xd only and a status exactly if the payload is empty,
  -- is read back in a subgroup of its type, in every version: the length in front of the extension
  -- headers is the one at which the loop over them stops, and they come back in the order in which
  -- they are written. A proper prefix is answered by buffer_too_short.
  pub object_codes :
      (h : ObjectHeader) (subgroup : SubgroupHeader)
      → subgroup.ty ≡ h.subgroup_ty
      → IsEncodable version h
      → Codes (to_bytes version h) (from_bytes version subgroup) (received h)
  unfolding to_bytes from_bytes
  object_codes h subgroup e v = rw e (
      seq _ (varint_codes _ v.id_fits) (
        seq _ (headers_codes h v)
          (seq _ (varint_codes _ v.payload_fits) (last _ (status_codes h v)))))
