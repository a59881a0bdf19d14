-- ===== src/Storage/Blosc/Laws.antt =====
-- Compression by the Blosc codec: what fits comes back, and what does not spoils the codec.
use tmfqsfullstate.Prelude.{
  ℕ, ◌+◌, ◌*◌, ◌^◌, ◌%◌, ◌≤◌, ◌<◌, ◌≡◌, refl, ap, ◌∙◌, true, false, ◌||◌, List, some, ltb, ◌==◌,
  if◌then◌else◌, length, arith, Bool-cases, inl, inr,
}
use tmfqsfullstate.Prelude.Int.{pos, ltb_ℤ, leb_ℤ}
use tmfqsfullstate.Core.Action.{ok, err, overflow_error, ◌>>◌}
use tmfqsfullstate.Config.{BloscConfig}
use tmfqsfullstate.Storage.Blosc.{
  Blosc2, BloscCodec, int32_max, validate_config, ensure_compression_ctx, grow_scratch, check_sizes,
  compress_into_scratch, compress,
}

-- The configurations that blosc2 supports: a level from 0 to 9, at least one thread and a compressor that
-- the library has.
pub record IsSupported {W : Type 0} (lib : Blosc2 W) (cfg : BloscConfig) : Type 0 where
  pub level : (ltb_ℤ cfg.clevel (pos 0) || ltb_ℤ (pos 9) cfg.clevel) ≡ false
  pub threads : leb_ℤ cfg.nthreads (pos 0) ≡ false
  pub compressor : lib.has_compressor cfg.compcode ≡ true

-- What the library documents of a supported configuration: contexts are made; a buffer that is larger
-- than the data by the overhead is enough to compress into, and at most that much is written; a buffer
-- of the data's size gets the data back.
pub record IsBlosc2 {W : Type 0} (lib : Blosc2 W) : Type 0 where
  pub makes_cctx : (cfg : BloscConfig) → IsSupported lib cfg → lib.creates_cctx cfg ≡ true
  pub makes_dctx : (cfg : BloscConfig) → IsSupported lib cfg → lib.creates_dctx cfg ≡ true
  pub writes :
      (cfg : BloscConfig) (values : List W) (size : ℕ)
      → IsSupported lib cfg
      → 0 < length values
      → length values * 8 + lib.max_overhead ≤ size
      → (0 < length (lib.compress_ctx cfg values size))
        × (length (lib.compress_ctx cfg values size) ≤ size)
  pub reads :
      (cfg : BloscConfig) (values : List W) (size : ℕ)
      → IsSupported lib cfg
      → 0 < length values
      → length values * 8 + lib.max_overhead ≤ size
      → lib.decompress_ctx cfg (lib.compress_ctx cfg values size) (length values * 8) ≡ some values

-- the size of the scratch buffer once it has grown
abbrev grown : ℕ → ℕ → ℕ
grown scratch required = if ltb scratch required then required else scratch

-- the codec once the scratch buffer has grown
abbrev after : BloscCodec → ℕ → BloscCodec
after codec required = record codec {
  compression_ctx = true;
  compression_scratch = grown codec.compression_scratch required;
}

grown_bounds :
    (scratch required : ℕ)
    → (scratch ≤ grown scratch required)
      × (required ≤ grown scratch required)
      × ((scratch ≤ int32_max) → (required ≤ int32_max) → grown scratch required ≤ int32_max)
grown_bounds scratch required = elim (Bool-cases (ltb scratch required)) [
  | inl e ↦
      let less : scratch < required = ground (arith, e) in
      rw e (omega arith, omega arith, λ h h'. h')
  | inr e ↦
      let least : required ≤ scratch = ground (arith, e) in rw e (omega arith, least, λ h h'. h)
]

module _ {W : Type 0} (lib : Blosc2 W) where
  -- a configuration that passes the check, with a compressor of the library, is supported
  accepted-IsSupported :
      (cfg : BloscConfig)
      → validate_config cfg ≡ ok tt
      → lib.has_compressor cfg.compcode ≡ true
      → IsSupported lib cfg
  unfolding validate_config
  accepted-IsSupported cfg accepted there = record {
    level = ground (arith, accepted);
    threads = ground (arith, accepted);
    compressor = there;
  }

  module _ (works : IsBlosc2 lib) (codec : BloscCodec) (ready : IsSupported lib codec.cfg) where
    ensured : ensure_compression_ctx lib codec ≡ (ok tt, record codec { compression_ctx = true })
    unfolding ensure_compression_ctx
    ensured = elim (Bool-cases codec.compression_ctx) [
      | inl e ↦ simp e (λ k. (ok tt, record codec { compression_ctx = e k }))
      | inr e ↦ simp (e, works.makes_cctx codec.cfg ready) refl
    ]

    grow_scratch-after :
        (required : ℕ)
        → grow_scratch required (record codec { compression_ctx = true }) ≡ after codec required
    unfolding grow_scratch
    grow_scratch-after required = elim (Bool-cases (ltb codec.compression_scratch required)) [
      | inl e ↦ rw e refl
      | inr e ↦ rw e refl
    ]

    -- what is left of `compress` once the buffer has grown
    compress-after :
        (values : List W)
        → 0 < length values
        → length values * 8 + lib.max_overhead < 2 ^ 64
        → compress lib values codec
          ≡ (check_sizes (length values * 8) >> compress_into_scratch lib values)
              (after codec (length values * 8 + lib.max_overhead))
    unfolding compress
    compress-after values some_values whole =
        let asked : (length values == 0) ≡ false = ground (arith, some_values) in
        let src : length values * 8 % 2 ^ 64 ≡ length values * 8 = omega (arith, whole) in
        let total : (length values * 8 + lib.max_overhead) % 2 ^ 64
            ≡ length values * 8 + lib.max_overhead =
          omega (arith, whole) in
        rw (asked, src, total, ensured, grow_scratch-after (length values * 8 + lib.max_overhead))
          refl

  -- a size that a test refuses
  compress-too_long :
      (works : IsBlosc2 lib) (codec : BloscCodec) (values : List W)
      → IsSupported lib codec.cfg
      → 0 < length values
      → length values * 8 + lib.max_overhead < 2 ^ 64
      → int32_max < grown codec.compression_scratch (length values * 8 + lib.max_overhead)
      → compress lib values codec
        ≡ (err overflow_error, after codec (length values * 8 + lib.max_overhead))
  unfolding check_sizes
  compress-too_long works codec values ready some_values whole over =
      let refused : (ltb int32_max (length values * 8)
            || ltb int32_max
                (grown codec.compression_scratch (length values * 8 + lib.max_overhead)))
          ≡ true =
        ground (arith, over) in
      compress-after works codec ready values some_values whole ∙ rw refused refl

  accepted_bound :
      (cfg : BloscConfig) → validate_config cfg ≡ ok tt → cfg.chunk_states * 2 % 2 ^ 64 ≤ 268435455
  unfolding validate_config
  accepted_bound cfg accepted = ground (arith, accepted)

  -- Where the library works as it documents and its overhead is at most 2^31 - 1 bytes, take a codec whose
  -- configuration passes validateConfig, has fewer than 2^63 states in a chunk and a compressor of the
  -- library's, but whose full chunk and the overhead are together more than 2^31 - 1 bytes. Compressing a full
  -- chunk throws overflow_error, and so does, after it, compressing any other chunk of at least one
  -- and at most as many doubles, however short, as the scratch buffer stays too large.
  pub compress-full_chunk_overflow :
      (works : IsBlosc2 lib) (codec : BloscCodec) (values later : List W)
      → lib.max_overhead ≤ int32_max
      → validate_config codec.cfg ≡ ok tt
      → lib.has_compressor codec.cfg.compcode ≡ true
      → codec.cfg.chunk_states < 2 ^ 63
      → length values ≡ codec.cfg.chunk_states * 2
      → int32_max < codec.cfg.chunk_states * 16 + lib.max_overhead
      → 0 < length later
      → length later ≤ length values
      → ((compress lib values codec).0 ≡ err overflow_error)
        × ((compress lib later (compress lib values codec).1).0 ≡ err overflow_error)
  compress-full_chunk_overflow works codec values later modest accepted there narrow full over one
        short =
      let ready = accepted-IsSupported codec.cfg accepted there in
      let bound = accepted_bound codec.cfg accepted in
      let most : length values ≤ 268435455 = omega (arith, bound, narrow, full) in
      let required : ℕ = length values * 8 + lib.max_overhead in
      let next : ℕ = length later * 8 + lib.max_overhead in
      let (old, large, bounded) = grown_bounds codec.compression_scratch required in
      let (kept, large', bounded') = grown_bounds (grown codec.compression_scratch required) next in
      let first =
        compress-too_long works codec values ready (omega (arith, one, short))
          (omega (arith, most, modest)) (omega (arith, large, full, over)) in
      let second =
        compress-too_long works (after codec required) later ready one
          (omega (arith, most, modest, short)) (omega (arith, large, kept, full, over)) in
      (
        ap (λ out. out.0) first,
        ap (λ out. (compress lib later out.1).0) first ∙ ap (λ out. out.0) second,
      )
