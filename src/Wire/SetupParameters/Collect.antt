-- ===== src/Wire/SetupParameters/Collect.antt =====
-- The loop of `SetupParameters::from_bytes` over parameters that are there already.
use quiche_moq.Common.{[], refl, ◌∷◌, ◌≡◌}
use quiche_moq.Octets.{Octets, Result, bind, err, ok, panic}
use quiche_moq.Wire.Version.{Version}
use quiche_moq.Wire.Parameter.{Parameter}
use quiche_moq.Wire.Parameters.{Parameters}
use quiche_moq.Wire.SetupParameters.{SetupParameters, apply}

module _ ⦃o : Octets⦄ (version : Version) where
  unfoldable pub collect : SetupParameters → Parameters → Result SetupParameters
  collect s [] = ok s
  collect s (p ∷ ps) = bind (apply version s p) (λ s'. collect s' ps)

  pub collect_cons :
      (s s' : SetupParameters) (p : Parameter) (ps : Parameters)
      → collect s (p ∷ ps) ≡ ok s'
      → (t : SetupParameters) × (apply version s p ≡ ok t) × (collect t ps ≡ ok s')
  unfolding collect
  collect_cons s s' p ps c = step (apply version s p) refl
    where
      step :
          (r : Result SetupParameters)
          → apply version s p ≡ r
          → (t : SetupParameters) × (apply version s p ≡ ok t) × (collect t ps ≡ ok s')
      step (ok t) e = (t, e, rw e at c)
      step (err x) e = cc (rw e at c)
      step panic e = cc (rw e at c)
