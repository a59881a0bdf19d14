-- ===== src/Tests/Compressed.antt =====
-- CompressedStateBackend on two qubits, in chunks of one state with two cache slots, over a codec
-- that writes each integer as its sign and its size.
use tmfqsfullstate.Prelude.{
  ℕ, ◌<◌, ◌≡◌, refl, ap, sym, subst, true, arith, List, [], ◌∷◌, ◌==◌, if◌then◌else◌,
}
use tmfqsfullstate.Prelude.Int.{ℤ, pos, negsuc}
use tmfqsfullstate.Core.Action.{Result, ok}
use tmfqsfullstate.Core.Amplitude.{Amplitude}
use tmfqsfullstate.Config.{RegisterConfig, blosc, generic, fixed_rate}
use tmfqsfullstate.Storage.ChunkCache.{Cached, acquire, flush_all}
use tmfqsfullstate.Storage.ChunkCache.Represents.{Represents, Loads}
use tmfqsfullstate.Storage.ChunkCache.Acquire.{IsAcquired, acquire-Represents}
use tmfqsfullstate.Storage.ChunkCache.Write.{flush_all-Represents}
use tmfqsfullstate.Storage.ChunkLayout.{chunk_elems}
use tmfqsfullstate.Storage.ChunkLayout.Chunks.{chunk_of}
use tmfqsfullstate.Storage.Codec.{CodecPolicy, IsLossless}
use tmfqsfullstate.Storage.Dense
use tmfqsfullstate.Storage.Compressed.{ChunkStorage, CompressedStateBackend, chunk_store}
use tmfqsfullstate.Storage.Compressed.Access
use tmfqsfullstate.Storage.Compressed.Transforms
use tmfqsfullstate.Storage.Compressed.Holds.{Holds, IsChunkSize, IsCounted, chunk_store-IsStore}
use tmfqsfullstate.Storage.Compressed.Steps.{some_chunks}
use tmfqsfullstate.Storage.Compressed.Refines.{
  Refines, set_amplitude-Refines, phase_flip_basis_state-Refines, amplitude-Refines,
}
use tmfqsfullstate.Storage.Compressed.Everywhere.{apply_affine_transform-Refines}
use tmfqsfullstate.Storage.Compressed.Reading.{total_probability-Refines, export_amplitudes-Refines}
use tmfqsfullstate.Storage.Compressed.Loading.{load_amplitudes-Holds}
use tmfqsfullstate.Tests.{integers, two_qubits}

unfoldable pub encode : List ℤ → List ℕ
encode [] = []
encode (pos n ∷ values) = 0 ∷ n ∷ encode values
encode (negsuc n ∷ values) = 1 ∷ n ∷ encode values

unfoldable pub decode : List ℕ → List ℤ
decode [] = []
decode (sign ∷ []) = []
decode (sign ∷ n ∷ bytes) = (if sign == 0 then pos n else negsuc n) ∷ decode bytes

pub decode-encode : (values : List ℤ) → decode (encode values) ≡ values
unfolding encode decode
decode-encode [] = refl
decode-encode (pos n ∷ values) = ap (λ u. pos n ∷ u) (decode-encode values)
decode-encode (negsuc n ∷ values) = ap (λ u. negsuc n ∷ u) (decode-encode values)

abbrev codec : CodecPolicy ℤ
codec = record {
  chunk_states = λ cfg. cfg.blosc_config.chunk_states;
  cache_slots = λ cfg. cfg.blosc_config.gate_cache_slots;
  validate_config = λ cfg. ok tt;
  compress = λ cfg values. ok (encode values);
  decompress = λ cfg bytes count. ok (decode bytes);
}

codec-IsLossless : (cfg : RegisterConfig ℤ) (Fits : ℕ → Type 0) → IsLossless codec cfg Fits
codec-IsLossless cfg Fits = record {
  restores = λ values h. (encode values, refl, ap ok (decode-encode values));
}

abbrev pub config : RegisterConfig ℤ
config = record {
  strategy = blosc;
  auto_threshold_bytes = 0;
  workload_hint = generic;
  blosc_config = record {
    chunk_states = 1;
    clevel = pos 1;
    nthreads = pos 1;
    compcode = pos 0;
    use_shuffle = true;
    gate_cache_slots = 2;
  };
  zfp_config = record {
    mode = fixed_rate;
    rate = pos 64;
    precision = 0;
    accuracy = pos 0;
    chunk_states = 1;
    nthreads = 1;
    gate_cache_slots = 2;
  };
}

-- The backend after its constructor.
abbrev constructed : CompressedStateBackend ℤ
constructed = record {
  num_qubits = 0;
  num_states = 0;
  config = config;
  layout = record {
    total_states = 0;
    total_elems = 0;
    states_per_chunk = 1;
    elems_per_chunk = 2;
    chunk_count = 0;
  };
  cached = record {
    cache = record { capacity = 2; slots = []; chunk_to_slot = []; touch_counter = 0 };
    store = [];
  };
  batch_depth = 0;
}

abbrev vector : List ℤ
vector = two_qubits.amplitudes

load_amplitudes-Holds_example :
    (b' : CompressedStateBackend ℤ) × (Access.load_amplitudes codec 2 vector constructed
      ≡ (ok tt, b'))
    × Holds codec 2 vector b'
    × (b'.config ≡ config)
    × (b'.layout.states_per_chunk ≡ 1)
load_amplitudes-Holds_example =
    load_amplitudes-Holds codec 2 vector constructed (omega arith) (omega arith) (omega arith)
      (omega arith) (omega arith) (codec-IsLossless config (IsChunkSize 1))

loaded : CompressedStateBackend ℤ
loaded = (Access.load_amplitudes codec 2 vector constructed).1

loaded-Holds : Holds codec 2 vector loaded
unfolding loaded
loaded-Holds =
    let (b', step, h, c, w) =
      load_amplitudes-Holds codec 2 vector constructed (omega arith) (omega arith) (omega arith)
        (omega arith) (omega arith) (codec-IsLossless config (IsChunkSize 1)) in
    subst (Holds codec 2 vector)
      (sym (ap (λ (r : Result (Unit {0}) × CompressedStateBackend ℤ). r.1) step)) h

lossless : IsLossless codec loaded.config (IsChunkSize loaded.layout.states_per_chunk)
lossless = codec-IsLossless loaded.config (IsChunkSize loaded.layout.states_per_chunk)

abbrev half : Amplitude ℤ
half = record { real = pos 7; imag = negsuc 2 }

set_amplitude-Refines_example :
    Refines codec 2 vector loaded (Dense.set_amplitude 2 half) (Access.set_amplitude codec 2 half)
set_amplitude-Refines_example = set_amplitude-Refines loaded-Holds lossless 2 half (omega arith)

phase_flip_basis_state-Refines_example :
    Refines codec 2 vector loaded
      (Dense.phase_flip_basis_state 3)
      (Transforms.phase_flip_basis_state codec 3)
phase_flip_basis_state-Refines_example =
    phase_flip_basis_state-Refines loaded-Holds lossless 3 (omega arith)

amplitude-Refines_example :
    Refines codec 2 vector loaded (Dense.amplitude 1) (Access.amplitude codec 1)
amplitude-Refines_example = amplitude-Refines loaded-Holds lossless 1 (omega arith)

apply_affine_transform-Refines_example :
    Refines codec 2 vector loaded
      (Dense.apply_affine_transform half half)
      (Transforms.apply_affine_transform codec half half)
apply_affine_transform-Refines_example =
    apply_affine_transform-Refines loaded-Holds lossless half half

total_probability-Refines_example :
    Refines codec 2 vector loaded Dense.total_probability (Access.total_probability codec)
total_probability-Refines_example = total_probability-Refines loaded-Holds

export_amplitudes-Refines_example :
    Refines codec 2 vector loaded Dense.export_amplitudes (Access.export_amplitudes codec)
export_amplitudes-Refines_example = export_amplitudes-Refines loaded-Holds

acquire-Represents_example :
    (k : ℕ) × (y : Cached ℤ (List ChunkStorage)) × (acquire
        (chunk_store codec loaded.config)
        0
        loaded.cached
      ≡ (ok k, y))
    × Represents
        (chunk_store codec loaded.config)
        loaded.layout.chunk_count
        (chunk_elems loaded.layout)
        (IsCounted loaded.layout)
        (chunk_of loaded.layout vector)
        y
    × IsAcquired 0 k loaded.cached y
acquire-Represents_example =
    acquire-Represents (chunk_store-IsStore codec loaded-Holds.exact lossless) loaded-Holds.holds 0
      (some_chunks loaded-Holds)

flush_all-Represents_example :
    (y : Cached ℤ (List ChunkStorage)) × (flush_all (chunk_store codec loaded.config) loaded.cached
      ≡ (ok tt, y))
    × Represents
        (chunk_store codec loaded.config)
        loaded.layout.chunk_count
        (chunk_elems loaded.layout)
        (IsCounted loaded.layout)
        (chunk_of loaded.layout vector)
        y
    × (y.cache.chunk_to_slot ≡ loaded.cached.cache.chunk_to_slot)
    × (y.cache.touch_counter ≡ loaded.cached.cache.touch_counter)
    × ((c : ℕ)
        → c < loaded.layout.chunk_count
        → Loads
            (chunk_store codec loaded.config)
            (chunk_elems loaded.layout)
            y.store
            c
            (chunk_of loaded.layout vector c))
flush_all-Represents_example =
    flush_all-Represents (chunk_store-IsStore codec loaded-Holds.exact lossless) loaded-Holds.holds
