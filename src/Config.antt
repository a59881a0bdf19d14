-- ===== src/Config.antt =====
-- config/register_config.h. The flags that say which settings were overridden are left out.
use tmfqsfullstate.Prelude.{ℕ, Bool}
use tmfqsfullstate.Prelude.Int.{ℤ}

pub data StorageStrategyKind : Type 0 where
  dense blosc zfp auto : StorageStrategyKind

pub data StorageWorkloadHint : Type 0 where
  generic grover qft : StorageWorkloadHint

pub data ZfpCompressionMode : Type 0 where
  fixed_rate fixed_precision fixed_accuracy : ZfpCompressionMode

-- `clevel`, `nthreads` and `compcode` are `int`s, which the code compares and passes on.
pub record BloscConfig : Type 0 where
  pub chunk_states : ℕ
  pub clevel : ℤ
  pub nthreads : ℤ
  pub compcode : ℤ
  pub use_shuffle : Bool
  pub gate_cache_slots : ℕ

pub record ZfpConfig (W : Type 0) : Type 0 where
  pub mode : ZfpCompressionMode
  pub rate : W
  pub precision : ℕ
  pub accuracy : W
  pub chunk_states : ℕ
  pub nthreads : ℕ
  pub gate_cache_slots : ℕ

pub record RegisterConfig (W : Type 0) : Type 0 where
  pub strategy : StorageStrategyKind
  pub auto_threshold_bytes : ℕ
  pub workload_hint : StorageWorkloadHint
  pub blosc_config : BloscConfig
  pub zfp_config : ZfpConfig W
