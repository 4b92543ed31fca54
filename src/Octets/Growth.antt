-- ===== src/Octets/Growth.antt =====
-- How many bytes a writer adds.
use quiche_moq.Common.{
  Bool-cases, List, [], arith, drop, inl, inr, leb, length, length-append, length-drop, le→leb,
  lt→leb_false, refl, sym, ℕ, ◌++◌, ◌+◌, ◌<◌, ◌∙◌, ◌≡◌, ◌≤◌,
}
use quiche_moq.Octets.{
  Error, M, Octets, Reader, Result, Writer, buffer_too_short, emit, err, ok, panic, pure, ◌>>=◌,
  ◌>>◌,
}
use quiche_moq.Octets.Codec.{Codes}

-- A write that succeeds adds `n` bytes.
abbrev pub Grows : M Writer (Unit {0}) → ℕ → Type 0
Grows p n = (w w' : Writer) → p w ≡ ok (tt, w') → length w'.written ≡ length w.written + n

pub emit-Grows : (bs : List ℕ) → Grows (emit bs) (length bs)
unfolding emit
emit-Grows bs w w' e = ground (arith, length-append w.written bs)

pub seq-Grows :
    (p q : M Writer (Unit {0})) (m n : ℕ) → Grows p m → Grows q n → Grows (p >> q) (m + n)
unfolding ◌>>◌
seq-Grows p q m n gp gq w w' e = step (p w) refl
  where
    step :
        (r : Result (Unit {0} × Writer)) → p w ≡ r → length w'.written ≡ length w.written + (m + n)
    step (ok (a, u)) ep = omega (arith, gp w u (ep), gq u w' (rw ep at e))
    step (err x) ep = cc (rw ep at e)
    step panic ep = cc (rw ep at e)

pub codes-length :
    {A : Type 0} {p : M Writer (Unit {0})} {g : M Reader A} {a : A} (n : ℕ)
    → Grows p n
    → (c : Codes p g a) → length c.bytes ≡ n
codes-length n grows c = omega (
  arith,
  grows (record { written = []; ahead = c.bytes })
      (record { written = c.bytes; ahead = drop (length c.bytes) c.bytes })
      (c.puts _ ∙ room c.bytes),
)
  where
    room :
        (bs : List ℕ)
        → emit bs (record { written = []; ahead = bs })
          ≡ ok (tt, record { written = bs; ahead = drop (length bs) bs })
    room bs = unfold emit in ground arith

-- Runs step by step.
abbrev pub advance : List ℕ → Writer → Writer
advance bs w = record { written = w.written ++ bs; ahead = drop (length bs) w.ahead }

pub emit_room :
    (bs : List ℕ) (w : Writer) → length bs ≤ length w.ahead → emit bs w ≡ ok (tt, advance bs w)
unfolding emit
emit_room bs w h = rw (le→leb (length bs) (length w.ahead) h)

pub emit_short :
    (bs : List ℕ) (w : Writer) → length w.ahead < length bs → emit bs w ≡ err buffer_too_short
unfolding emit
emit_short bs w h = rw (lt→leb_false (length w.ahead) (length bs) h)

pub then_ok :
    {B : Type 0} (p : M Writer (Unit {0})) (q : M Writer B) (w w' : Writer)
    → p w ≡ ok (tt, w')
    → (p >> q) w ≡ q w'
unfolding ◌>>◌
then_ok p q w w' e = rw e

pub then_err :
    {B : Type 0} (p : M Writer (Unit {0})) (q : M Writer B) (w : Writer) (x : Error)
    → p w ≡ err x
    → (p >> q) w ≡ err x
unfolding ◌>>◌
then_err p q w x e = rw e

-- The bytes of a code are those that the writer adds.
pub codes-bytes :
    {A : Type 0} {p : M Writer (Unit {0})} {g : M Reader A} {a : A} (c : Codes p g a) (bs : List ℕ)
    → ((w : Writer) → p w ≡ emit bs w)
    → c.bytes ≡ bs
codes-bytes {p} c bs puts = cc (
    sym (emit_room c.bytes w (omega (arith, length-append c.bytes bs)))
    ∙ sym (c.puts w)
    ∙ puts w
    ∙ emit_room bs w (omega (arith, length-append c.bytes bs)))
  where
    w : Writer
    w = record { written = []; ahead = c.bytes ++ bs }

-- A read that succeeds takes at least `n` bytes away, whatever the bytes are.
abbrev pub Consumes : {A : Type 0} → M Reader A → ℕ → Type 0
Consumes {A} g n = (r s : Reader) (a : A) → g r ≡ ok (a, s) → length s + n ≤ length r

pub pure-Consumes : {A : Type 0} (a : A) → Consumes (pure a) 0
pure-Consumes a r s b e = ground arith

pub bind-Consumes :
    {A B : Type 0} (g : M Reader A) (h : A → M Reader B) (m n : ℕ)
    → Consumes g m
    → ((a : A) → Consumes (h a) n)
    → Consumes (g >>= h) (m + n)
unfolding ◌>>=◌
bind-Consumes {A} {B} g h m n cg ch r s b e = step (g r) refl
  where
    step : (x : Result (A × Reader)) → g r ≡ x → length s + (m + n) ≤ length r
    step (ok (a, u)) eg = omega (arith, cg r u a (eg), ch a u s b (rw eg at e))
    step (err x) eg = cc (rw eg at e)
    step panic eg = cc (rw eg at e)

module _ ⦃o : Octets⦄ where
  pub get_varint-Consumes : Consumes o.get_varint 1
  get_varint-Consumes r s v e = omega (arith, o.get_varint_shorter r s v e)

  pub get_bytes-Consumes : (n : ℕ) → Consumes (o.get_bytes n) 0
  get_bytes-Consumes n r s b e = elim (Bool-cases (leb n (length r))) [
    | inl h ↦ ground (arith, length-drop n r, rw (h) at (sym (o.get_bytes_lem n r) ∙ e))
    | inr h ↦ cc (rw (h) at (sym (o.get_bytes_lem n r) ∙ e))
  ]
