-- ===== src/Storage/Codec.antt =====
-- The template parameter of storage/common/compressed_state_backend.h: what a codec policy
-- (storage/blosc/blosc_codec_policy.h, storage/zfp/zfp_codec_policy.h) offers to the backend. Bytes
-- are numbers. The contexts and scratch buffers that a codec keeps are left out.
use tmfqsfullstate.Prelude.{ℕ, List, length, ◌≡◌}
use tmfqsfullstate.Core.Action.{Result, ok}
use tmfqsfullstate.Config.{RegisterConfig}

pub record CodecPolicy (W : Type 0) : Type 0 where
  pub chunk_states : RegisterConfig W → ℕ
  pub cache_slots : RegisterConfig W → ℕ
  -- the constructor, which validates the configuration
  pub validate_config : RegisterConfig W → Result (Unit {0})
  pub compress : RegisterConfig W → List W → Result (List ℕ)
  pub decompress : RegisterConfig W → List ℕ → ℕ → Result (List W)

-- What is compressed comes back: chunks of these sizes are compressed, and decompressed to what they
-- were.
pub record IsLossless {W : Type 0} (p : CodecPolicy W) (cfg : RegisterConfig W) (Fits : ℕ → Type 0)
    : Type 0 where
  pub restores :
      (values : List W)
      → Fits (length values)
      → (bytes : List ℕ) × (p.compress cfg values ≡ ok bytes)
        × (p.decompress cfg bytes (length values) ≡ ok values)
