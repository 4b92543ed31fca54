-- ===== src/Moq/Session/Panicking.antt =====
-- Where reading a track panics: the streams that it names are there, so it is not their `unwrap`.
use quiche_moq.Common.{some, ℕ, ◌≡◌}
use quiche_moq.Common.Outcome.{Outcome}
use quiche_moq.Octets.{Octets}
use quiche_moq.Webtransport.{Transport}
use quiche_moq.Moq.Error.{Error}
use quiche_moq.Moq.Action.{Action, panicked}
use quiche_moq.Moq.InStream.{InStream, buf_len}
use quiche_moq.Moq.InStream
use quiche_moq.Moq.InStream.Kept.{alias}
use quiche_moq.Moq.InTrack.{InTrack}
use quiche_moq.Moq.Session.{Session}
use quiche_moq.Moq.Session.Receive.{read_obj_hdr}

module _ {S : Type 0} (wt : Transport S) (fuel : ℕ) ⦃o : Octets⦄ where
  -- A stream whose header names the track, and whose own read of an object header panics.
  abbrev pub Panics : ℕ → Type 0
  Panics a =
      (t : InStream) × (c d : S) × (u : InStream) × (alias t ≡ some a)
      × (InStream.read_obj_hdr wt fuel t c ≡ some (u, d, Outcome.panicked))
