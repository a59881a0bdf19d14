-- ===== src/State/Validation.antt =====
-- state/quantum_state.cpp: the checks on a vector of amplitudes that is loaded.
use tmfqsfullstate.Prelude.{◌%◌, not, List, [], ◌∷◌, map, ◌==◌, if◌then◌else◌, length}
use tmfqsfullstate.Core.Action.{Result, ok, err, invalid_argument}
use tmfqsfullstate.Core.Amplitude.{Double, ◌⊕◌, ◌⊖◌, ◌⊗◌, ◌⊘◌, nought, one}
use tmfqsfullstate.State.{NormalizationPolicy, StateValidation}

module _ {W : Type 0} ⦃d : Double W⦄ where
  -- `StateValidation{}`
  abbrev pub default_validation : StateValidation W
  default_validation = record {
    probability_tolerance = one ⊘ d.of_nat 1000000000;
    normalization = NormalizationPolicy.validate;
  }

  unfoldable pub add_mass : List W → W → W
  add_mass [] total = total
  add_mass (x ∷ []) total = total
  add_mass (x ∷ y ∷ elems) total = add_mass elems (total ⊕ (x ⊗ x ⊕ y ⊗ y))

  unfoldable pub probability_mass : List W → W
  unfolding add_mass
  probability_mass amplitudes = add_mass amplitudes nought

  unfoldable pub normalize : List W → Result (List W)
  unfolding probability_mass
  normalize amplitudes =
      let total = probability_mass amplitudes in
      if d.le total nought
      then err invalid_argument
      else ok (map (λ value. value ⊗ (one ⊘ d.sqrt total)) amplitudes)

  -- The vector is taken by value: what is left of it after a throw is lost.
  unfoldable pub validate_or_normalize : List W → StateValidation W → Result (List W)
  unfolding probability_mass normalize
  validate_or_normalize amplitudes validation =
      if not (length amplitudes % 2 == 0)
      then err invalid_argument
      else elim validation.normalization [
        | NormalizationPolicy.allow_unnormalized ↦ ok amplitudes
        | NormalizationPolicy.normalize ↦ normalize amplitudes
        | NormalizationPolicy.validate ↦
            if d.lt validation.probability_tolerance (d.abs (probability_mass amplitudes ⊖ one))
            then err invalid_argument
            else ok amplitudes
      ]
