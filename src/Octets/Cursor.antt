-- ===== src/Octets/Cursor.antt =====
-- Writing at an earlier place of the buffer: quiche_moq_wire/src/octets.rs.
use quiche_moq.Common.{
  Cut, List, [], append-nil, append_assoc, arith, cons_of_pos, drop, drop-append, length,
  length-Cut, length-append, take, take-append, ℕ, ◌++◌, ◌<◌, ◌^◌, ◌∷◌, ◌≡◌,
}
use quiche_moq.Octets.{M, Octets, Reader, Result, Writer, bind, buffer_too_short, emit, err, ok}

-- `b.off()`
unfoldable pub off : M Writer ℕ
off w = ok (length w.written, w)

-- The two halves that `split_at` gives share the buffer of `w`, whose own cursor stays.
unfoldable pub rejoin : Writer → Writer → Writer → Writer
rejoin w l r =
    let whole = l.written ++ (l.ahead ++ (r.written ++ r.ahead)) in
    record { written = take (length w.written) whole; ahead = drop (length w.written) whole }

cut_at :
    (n : ℕ) (xs ys zs : List ℕ)
    → n ≡ length xs
    → zs ≡ xs ++ ys
    → ◌≡◌ {A = Result (Unit {0} × Writer)}
        (ok (tt, record { written = take n zs; ahead = drop n zs }))
        (ok (tt, record { written = xs; ahead = ys }))
cut_at n xs ys zs e f = rw (e, f, take-append xs ys, drop-append xs ys)

module _ ⦃o : Octets⦄ where
  -- `let (_, mut b) = b.split_at(off)?; p(&mut b)?`
  unfoldable pub write_at : ℕ → M Writer (Unit {0}) → M Writer (Unit {0})
  unfolding rejoin
  write_at off p w = bind (o.split_at off w) λ (l, r). bind (p r) λ (u, r'). ok (u, rejoin w l r')

  unfoldable pub put_u16_at : ℕ → ℕ → M Writer (Unit {0})
  unfolding write_at
  put_u16_at v off = write_at off (o.put_u16 v)

  unfoldable pub put_varint_with_len_at : ℕ → ℕ → ℕ → M Writer (Unit {0})
  unfolding write_at
  put_varint_with_len_at v len off = write_at off (o.put_varint_with_len v len)

  unfoldable pub peek_varint : M Reader ℕ
  peek_varint r = bind (o.peek_u8 r) λ first_byte.
      bind (o.peek_bytes (o.varint_parse_len first_byte) r)
        λ b. bind (o.get_varint b) λ (v, b'). ok (v, r)

  -- What is written over a part before the cursor takes its place, and nothing else changes.
  pub write_at_lem :
      (p : M Writer (Unit {0})) (pre old new post ahead : List ℕ)
      → ((w : Writer) → p w ≡ emit new w)
      → length old ≡ length new
      → write_at (length pre) p (record { written = pre ++ (old ++ post); ahead = ahead })
        ≡ ok (tt, record { written = pre ++ (new ++ post); ahead = ahead })
  unfolding write_at
  write_at_lem p pre old new post ahead puts e =
      rw
        (
          o.split_at_lem (length pre) (record { written = pre ++ (old ++ post); ahead = ahead })
              (omega (arith, length-append pre (old ++ post))),
          take-append pre (old ++ post),
          drop-append pre (old ++ post),
          puts,
          append_assoc old post ahead,
          replaced,
        )
        (cut_at (length (pre ++ (old ++ post))) (pre ++ (new ++ post)) ahead
          (pre ++ (new ++ (post ++ ahead)))
          (omega (
            arith,
            e,
            length-append pre (old ++ post),
            length-append pre (new ++ post),
            length-append old post,
            length-append new post,
          ))
          (rw (append_assoc pre (new ++ post) ahead, append_assoc new post ahead)))
    where
      replaced :
          emit new (record { written = []; ahead = old ++ (post ++ ahead) })
          ≡ ok (tt, record { written = new; ahead = post ++ ahead })
      replaced =
          unfold emit in
          ground (arith, e, length-append old (post ++ ahead), drop-append old (post ++ ahead))

  -- `peek_varint` sees the number at the front and takes nothing away.
  pub peek_varint_lem :
      (v : ℕ) (r : Reader) → v < 2 ^ 62 → peek_varint (o.varint v ++ r) ≡ ok (v, o.varint v ++ r)
  unfolding peek_varint
  peek_varint_lem v r h =
      let (b, t, e) =
        cons_of_pos (o.varint v) (omega (arith, o.length-varint v h, o.varint_len_bounds v h)) in
      ground (
        arith,
        e,
        o.peek_u8_lem b (t ++ r),
        o.varint_parse_len_lem v b t h e,
        o.length-varint v h,
        o.peek_bytes_lem (o.varint_len v) (o.varint v ++ r),
        length-append (o.varint v) r,
        take-append (o.varint v) r,
        o.get_varint_lem v [] h,
        append-nil (o.varint v),
      )

  pub peek_varint-Cut :
      (v : ℕ) (r : Reader) → v < 2 ^ 62 → Cut r (o.varint v) → peek_varint r ≡ err buffer_too_short
  unfolding peek_varint
  peek_varint-Cut v [] h c = rw o.peek_u8_cut
  peek_varint-Cut v (x ∷ r) h c =
      let (b, t, e) =
        cons_of_pos (o.varint v) (omega (arith, o.length-varint v h, o.varint_len_bounds v h)) in
      let same : x ≡ b = (rw e at c).0 in
      ground (
        arith,
        same,
        o.peek_u8_lem x r,
        o.varint_parse_len_lem v b t h e,
        o.length-varint v h,
        o.peek_bytes_lem (o.varint_len v) (x ∷ r),
        length-Cut (x ∷ r) (o.varint v) c,
      )
