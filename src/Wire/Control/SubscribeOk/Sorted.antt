-- ===== src/Wire/Control/SubscribeOk/Sorted.antt =====
-- What draft 16 makes of the parameters after they have been sorted by type.
use quiche_moq.Common.{
  ==_iff, All, Bool-cases, Option, [], append-nil, arith, false, inl, inr, none, not, refl, some,
  true, zeros, ℕ, ◌==◌, ◌∷◌, ◌≡◌, ◌⊎◌,
}
use quiche_moq.Common.Sorting.{filter, filter-sort_by_key, sort_by_key}
use quiche_moq.Octets.{Octets, Result, bind, err, ok, panic}
use quiche_moq.Octets.Fields.{IsVarint}
use quiche_moq.Wire.Location.{Location}
use quiche_moq.Wire.Location
use quiche_moq.Octets.Growth.{emit_room}
use quiche_moq.Wire.Parameter.{Parameter, new_bytes, new_varint}
use quiche_moq.Wire.Parameters.{
  Parameters, find, get_bytes, get_varint, and_then, as_varint, as_bytes,
}
use quiche_moq.Wire.Parameters.Find.{find-sort_by_key}
use quiche_moq.Wire.Control.SubscribeOk.{
  SubscribeOkParameters, GroupOrder, ascending, descending, entries, expires_entry, from_parameters,
  is_known, location_bytes, location_entry, location_of, order_of, unwrap_or,
}

abbrev pub IsExtra : Parameter → Type 0
IsExtra p = is_known p.ty ≡ false

abbrev pub IsPlace : Option Location → Type 0
IsPlace none = Unit {0}
IsPlace (some l) = IsVarint l.group × IsVarint l.object

find_extra : (ty : ℕ) (ps : Parameters) → is_known ty ≡ true → All IsExtra ps → find ty ps ≡ none
unfolding find
find_extra ty [] k v = refl
find_extra ty (p ∷ ps) k (v, vs) = elim (Bool-cases (p.ty == ty)) [
  | inl e ↦ cc (v, k, (==_iff p.ty ty).0 e)
  | inr e ↦ rw e (find_extra ty ps k vs)
]

filter_extra : (ps : Parameters) → All IsExtra ps → filter (λ p. not (is_known p.ty)) ps ≡ ps
unfolding filter
filter_extra [] v = refl
filter_extra (p ∷ ps) (v, vs) = rw (v, filter_extra ps vs)

bind-ok :
    {A B C : Type 0} (r : Result A) (f : A → B) (g : B → C)
    → bind r (λ a. ok (g (f a))) ≡ bind (bind r (λ a. ok (f a))) (λ b. ok (g b))
bind-ok (ok a) f g = refl
bind-ok (err e) f g = refl
bind-ok panic f g = refl

module _ ⦃o : Octets⦄ where
  pub location_bytes_lem :
      (l : Location) (g : IsVarint l.group) (b : IsVarint l.object)
      → location_bytes l ≡ ok (Location.codes l g b).bytes
  unfolding location_bytes
  location_bytes_lem l g b = rw (
    (Location.codes l g b).puts (record { written = []; ahead = zeros 18 }),
    emit_room (Location.codes l g b).bytes (record { written = []; ahead = zeros 18 })
        (omega (arith, Location.length-codes l g b)),
  )

  -- What draft 16 reads a sequence of parameters as in a SUBSCRIBE_OK does not change when the
  -- sequence is sorted by type, except that the other parameters come out sorted.
  pub from_parameters-sort :
      (ps : Parameters)
      → from_parameters (sort_by_key (λ p. p.ty) ps)
        ≡ bind
            (from_parameters ps)
            (λ p. ok (record p { extra_parameters = sort_by_key (λ p. p.ty) p.extra_parameters }))
  unfolding from_parameters get_bytes get_varint
  from_parameters-sort ps =
      rw
        (
          find-sort_by_key 0x9 ps,
          find-sort_by_key 0x8 ps,
          find-sort_by_key 0x22 ps,
          filter-sort_by_key (λ (p : Parameter). p.ty) (λ (p : Parameter). not (is_known p.ty)) ps,
        )
        (bind-ok {B = SubscribeOkParameters} (location_of (get_bytes 0x9 ps))
          (λ l. record {
            expires = unwrap_or 0 (get_varint 0x8 ps);
            group_order = order_of (unwrap_or 1 (get_varint 0x22 ps));
            largest_location = l;
            extra_parameters = filter (λ p. not (is_known p.ty)) ps;
          })
          (λ p. record p { extra_parameters = sort_by_key (λ p. p.ty) p.extra_parameters }))

  -- The entries are read as what they were made from.
  pub from_parameters-entries :
      (p : SubscribeOkParameters)
      → IsPlace p.largest_location
      → All IsExtra p.extra_parameters
      → bind (entries p) from_parameters ≡ ok p
  unfolding entries from_parameters get_bytes get_varint location_entry expires_entry find filter
      and_then as_bytes as_varint unwrap_or new_varint new_bytes is_known
  from_parameters-entries p h v =
      cases p.largest_location p.group_order h (Bool-cases (p.expires == 0))
    where
      no : ((p.expires == 0) ≡ true) → p.expires ≡ 0
      no e = (==_iff p.expires 0).0 e

      nine : find 0x9 p.extra_parameters ≡ none
      nine = find_extra 0x9 p.extra_parameters refl v

      eight : find 0x8 p.extra_parameters ≡ none
      eight = find_extra 0x8 p.extra_parameters refl v

      reads :
          (l : Location) (h : IsPlace (some l))
          → Location.from_bytes (Location.codes l h.0 h.1).bytes ≡ ok (l, [])
      reads l h =
          rw (append-nil (Location.codes l h.0 h.1).bytes) at ((Location.codes l h.0 h.1).gets [])

      back :
          (l : Location) (h : IsPlace (some l))
          → location_of (some (Location.codes l h.0 h.1).bytes) ≡ ok (some l)
      back l h = unfold location_of in rw (reads l h)

      cases :
          (l : Option Location) (g : GroupOrder)
          → IsPlace l
          → ((p.expires == 0) ≡ true) ⊎ ((p.expires == 0) ≡ false)
          → bind (entries (record p { largest_location = l; group_order = g })) from_parameters
            ≡ ok (record p { largest_location = l; group_order = g })
      cases none ascending h (inl e) = rw (no e, nine, eight, filter_extra p.extra_parameters v)
      cases none descending h (inl e) = rw (no e, nine, eight, filter_extra p.extra_parameters v)
      cases (some l) ascending h (inl e) =
          rw
            (no e, location_bytes_lem l h.0 h.1, back l h, eight, filter_extra p.extra_parameters v)
      cases (some l) descending h (inl e) =
          rw
            (no e, location_bytes_lem l h.0 h.1, back l h, eight, filter_extra p.extra_parameters v)
      cases none ascending h (inr e) = rw (e, nine, filter_extra p.extra_parameters v)
      cases none descending h (inr e) = rw (e, nine, filter_extra p.extra_parameters v)
      cases (some l) ascending h (inr e) =
          rw (e, location_bytes_lem l h.0 h.1, back l h, filter_extra p.extra_parameters v)
      cases (some l) descending h (inr e) =
          rw (e, location_bytes_lem l h.0 h.1, back l h, filter_extra p.extra_parameters v)
