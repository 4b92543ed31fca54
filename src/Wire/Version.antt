-- ===== src/Wire/Version.antt =====
-- quiche_moq_wire/src/lib.rs and version.rs: the drafts of the protocol and how code branches on them.
use quiche_moq.Common.{
  Bool, Bool-cases, arith, false, if◌then◌else◌, inl, inr, leb, leb→le, leb→lt, true, ℕ, ◌&&◌, ◌+◌,
  ◌<◌, ◌==◌, ◌≡◌, ◌≤◌,
}
use quiche_moq.Octets.{M, Reader, Result, Writer, ok, panic, panics}
use quiche_moq.Octets.Codec.{Codes}
use Prim.Native.String.{String}

abbrev pub Version : Type 0
Version = ℕ

abbrev pub draft_07 : Version
draft_07 = 0xff000007

abbrev pub draft_08 : Version
draft_08 = 0xff000008

abbrev pub draft_10 : Version
draft_10 = 0xff00000a

abbrev pub draft_11 : Version
draft_11 = 0xff00000b

abbrev pub draft_12 : Version
draft_12 = 0xff00000c

abbrev pub draft_13 : Version
draft_13 = 0xff00000d

abbrev pub draft_15 : Version
draft_15 = 0xff00000f

abbrev pub draft_16 : Version
draft_16 = 0xff000010

-- The pattern `lo..=hi`.
unfoldable pub between : ℕ → ℕ → ℕ → Bool
between lo hi v = leb lo v && leb v hi

-- The drafts that the crate has code for.
abbrev pub IsDraft : Version → Type 0
IsDraft v = (draft_07 ≤ v) × (v ≤ draft_16)

unfoldable pub version_to_name : Version → Result String
version_to_name v =
    if v == draft_07
    then ok "07"
    else if v == draft_08
    then ok "08"
    else if v == 0xff000009
    then ok "09"
    else if v == draft_10
    then ok "10"
    else if v == draft_11
    then ok "11"
    else if v == draft_12
    then ok "12"
    else if v == draft_13
    then ok "13"
    else if v == 0xff00000e
    then ok "14"
    else if v == draft_15
    then ok "15"
    else if v == draft_16
    then ok "16"
    else panic

pub between-true : (lo hi v : ℕ) → lo ≤ v → v ≤ hi → between lo hi v ≡ true
unfolding between
between-true lo hi v h k = ground arith

pub between-false : (lo hi v : ℕ) → hi < v → between lo hi v ≡ false
unfolding between
between-false lo hi v h = ground arith

-- A `match` on the version with two ranges that meet, on both sides of the wire.
pub ranges :
    {A : Type 0} {p q : M Writer (Unit {0})} {g h : M Reader A} {x : A} (lo a b hi v : ℕ)
    → lo ≤ v
    → v ≤ hi
    → b ≤ a + 1
    → (v ≤ a → Codes p g x)
    → (a < v → Codes q h x)
    → Codes
        (if between lo a v then p else if between b hi v then q else panics)
        (if between lo a v then g else if between b hi v then h else panics)
        x
ranges lo a b hi v l u m c d = elim (Bool-cases (leb v a)) [
  | inl e ↦ rw (between-true lo a v l (leb→le v a e)) (c (leb→le v a e))
  | inr e ↦
      rw (between-false lo a v (leb→lt v a e), between-true b hi v (omega (arith, leb→lt v a e)) u)
        (d (leb→lt v a e))
]
