-- ===== src/Storage/Blosc.antt =====
-- storage/blosc/blosc_codec.cpp with Blosc2 built in: the check of the configuration, and compression and
-- decompression of one chunk around the library. The super-chunk that the codec can also keep is left
-- out: the compressed backend does not use it.
pub mod Laws
use tmfqsfullstate.Prelude.{
  ℕ, ◌+◌, ◌*◌, ◌^◌, ◌%◌, ◌-◌, Bool, true, not, ◌||◌, List, Option, none, some, ltb, ◌==◌,
  if◌then◌else◌, length,
}
use tmfqsfullstate.Prelude.Int.{ℤ, pos, ltb_ℤ, leb_ℤ}
use tmfqsfullstate.Core.Action.{
  Result, ok, err, invalid_argument, runtime_error, overflow_error, throw_if, Action, ◌>>=◌, ◌>>◌,
  pure, lift, current, modify,
}
use tmfqsfullstate.Core.StateSpace.{u64_mod}
use tmfqsfullstate.Config.{BloscConfig}

-- numeric_limits<int32_t>::max()
abbrev pub int32_max : ℕ
int32_max = 2 ^ 31 - 1

-- The library: BLOSC2_MAX_OVERHEAD, whether it has the compressor of a `compcode`, whether contexts can be
-- made for a configuration, the bytes that compression writes to a buffer of a given size (none where it
-- returns 0 or less), and the numbers that decompression writes to a buffer of a given size (`none`
-- where it returns less than 0). A context is what its configuration makes it.
pub record Blosc2 (W : Type 0) : Type 0 where
  pub max_overhead : ℕ
  pub has_compressor : ℤ → Bool
  pub creates_cctx : BloscConfig → Bool
  pub creates_dctx : BloscConfig → Bool
  pub compress_ctx : BloscConfig → List W → ℕ → List ℕ
  pub decompress_ctx : BloscConfig → List ℕ → ℕ → Option (List W)

-- BloscCodec: its configuration, whether its contexts have been made, and the size of its scratch buffer.
pub record BloscCodec : Type 0 where
  pub cfg : BloscConfig
  pub compression_ctx : Bool
  pub decompression_ctx : Bool
  pub compression_scratch : ℕ

abbrev pub Codec : Type 0 → Type 0
Codec A = Action BloscCodec A

unfoldable pub validate_config : BloscConfig → Result (Unit {0})
validate_config cfg =
    if cfg.chunk_states == 0
    then err invalid_argument
    else if ltb_ℤ cfg.clevel (pos 0) || ltb_ℤ (pos 9) cfg.clevel
    then err invalid_argument
    else if leb_ℤ cfg.nthreads (pos 0)
    then err invalid_argument
    else if ltb cfg.gate_cache_slots 2
    then err invalid_argument
    else throw_if (ltb 268435455 (cfg.chunk_states * 2 % u64_mod)) invalid_argument

-- if(compressionScratch.size() < required) compressionScratch.resize(required)
unfoldable pub grow_scratch : ℕ → BloscCodec → BloscCodec
grow_scratch required codec =
    if ltb codec.compression_scratch required
    then record codec { compression_scratch = required }
    else codec

-- the two tests of `compress` after the buffer has grown
unfoldable pub check_sizes : ℕ → Codec (Unit {0})
check_sizes src_bytes codec = (
  throw_if (ltb int32_max src_bytes || ltb int32_max codec.compression_scratch) overflow_error,
  codec,
)

module _ {W : Type 0} (lib : Blosc2 W) where
  unfoldable pub ensure_compression_ctx : Codec (Unit {0})
  ensure_compression_ctx codec =
      if codec.compression_ctx
      then (ok tt, codec)
      else if not (lib.creates_cctx codec.cfg)
      then (err runtime_error, codec)
      else (ok tt, record codec { compression_ctx = true })

  unfoldable pub ensure_decompression_ctx : Codec (Unit {0})
  ensure_decompression_ctx codec =
      if codec.decompression_ctx
      then (ok tt, codec)
      else if not (lib.creates_dctx codec.cfg)
      then (err runtime_error, codec)
      else (ok tt, record codec { decompression_ctx = true })

  unfoldable pub compress_into_scratch : List W → Codec (List ℕ)
  compress_into_scratch values codec =
      let bytes = lib.compress_ctx codec.cfg values codec.compression_scratch in
      if length bytes == 0 then (err runtime_error, codec) else (ok bytes, codec)

  unfoldable pub compress : List W → Codec (List ℕ)
  unfolding ensure_compression_ctx grow_scratch check_sizes compress_into_scratch
  compress values =
      let src_bytes = length values * 8 % u64_mod in
      lift (throw_if (length values == 0) invalid_argument)
      >> ensure_compression_ctx
      >> modify (grow_scratch ((src_bytes + lib.max_overhead) % u64_mod))
      >> check_sizes src_bytes
      >> compress_into_scratch values

  abbrev pub restored : Option (List W) → ℕ → Result (List W)
  restored none dest_bytes = err runtime_error
  restored (some values) dest_bytes =
      if not (length values * 8 == dest_bytes) then err runtime_error else ok values

  unfoldable pub decompress : List ℕ → ℕ → Codec (List W)
  unfolding ensure_decompression_ctx
  decompress compressed expected_elems =
      let dest_bytes = expected_elems * 8 % u64_mod in
      lift (throw_if ((expected_elems == 0) || (length compressed == 0)) invalid_argument)
      >> ensure_decompression_ctx
      >> lift
          (throw_if (ltb int32_max dest_bytes || ltb int32_max (length compressed)) overflow_error)
      >> λ codec. (restored (lib.decompress_ctx codec.cfg compressed dest_bytes) dest_bytes, codec)
