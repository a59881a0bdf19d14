-- ===== src/Storage/Registry.antt =====
-- storage/factory/storage_strategy_registry.cpp: the choice of a backend. Whether a library is built in
-- and what its factory makes are parameters: `none` is the null pointer of a factory without it.
pub mod Laws
use tmfqsfullstate.Prelude.{ℕ, ◌*◌, ◌%◌, Bool, true, Option, none, some, ltb, if◌then◌else◌}
use tmfqsfullstate.Core.Action.{Result, ok, err, runtime_error, and_then}
use tmfqsfullstate.Core.StateSpace.{u64_mod, checked_amplitude_element_count}
use tmfqsfullstate.Config.{StorageStrategyKind, dense, blosc, zfp, auto, RegisterConfig}

pub record BackendSelection (W B : Type 0) : Type 0 where
  pub strategy : StorageStrategyKind
  pub config : RegisterConfig W
  pub backend : B

module _ (blosc_available zfp_available : Bool) where
  unfoldable pub is_available : StorageStrategyKind → Bool
  is_available dense = true
  is_available blosc = blosc_available
  is_available zfp = zfp_available
  is_available auto = true

  -- sizeof(double) is 8
  unfoldable pub resolve_auto : ℕ → ℕ → Result StorageStrategyKind
  unfolding checked_amplitude_element_count
  resolve_auto num_qubits threshold =
      and_then (checked_amplitude_element_count num_qubits) (λ elems.
        if ltb (elems * 8 % u64_mod) threshold
        then ok dense
        else if blosc_available
        then ok blosc
        else if zfp_available
        then ok zfp
        else ok dense)

  -- the threshold is `cfg.autoThresholdBytes`
  unfoldable pub resolve : ℕ → ℕ → StorageStrategyKind → Result StorageStrategyKind
  unfolding resolve_auto
  resolve num_qubits threshold dense = ok dense
  resolve num_qubits threshold blosc = ok blosc
  resolve num_qubits threshold zfp = ok zfp
  resolve num_qubits threshold auto = resolve_auto num_qubits threshold

  module _ {W B : Type 0} (create_dense : RegisterConfig W → B)
      (create_blosc create_zfp : RegisterConfig W → Option B) where
    -- the backend of a factory, or the exception for a null pointer
    abbrev pub required : Option B → Result B
    required none = err runtime_error
    required (some b) = ok b

    unfoldable pub create_backend : StorageStrategyKind → RegisterConfig W → Result B
    create_backend dense config = ok (create_dense config)
    create_backend blosc config = required (create_blosc config)
    create_backend zfp config = required (create_zfp config)
    create_backend auto config = err runtime_error

    unfoldable pub create_selection : ℕ → RegisterConfig W → Result (BackendSelection W B)
    unfolding resolve create_backend
    create_selection num_qubits cfg =
        and_then (resolve num_qubits cfg.auto_threshold_bytes cfg.strategy) (λ strategy.
          let config = record cfg { strategy = strategy } in
          and_then (create_backend strategy config)
            (λ b. ok (record { strategy = strategy; config = config; backend = b })))
