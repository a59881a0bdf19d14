-- ===== src/Storage/Compressed/Backend.antt =====
-- CompressedStateBackend as an IStateBackend.
use tmfqsfullstate.Core.Amplitude.{Double}
use tmfqsfullstate.Storage.Backend.{IStateBackend}
use tmfqsfullstate.Storage.Codec.{CodecPolicy}
use tmfqsfullstate.Storage.Compressed
use tmfqsfullstate.Storage.Compressed.{CompressedStateBackend}
use tmfqsfullstate.Storage.Compressed.Access
use tmfqsfullstate.Storage.Compressed.Transforms
use tmfqsfullstate.Storage.Compressed.Kernels
use tmfqsfullstate.Storage.Compressed.Matching

module _ {W : Type 0} ⦃d : Double W⦄ (p : CodecPolicy W) where
  abbrev pub compressed_backend : IStateBackend W (CompressedStateBackend W)
  compressed_backend = record {
    init_zero = Access.init_zero p;
    init_basis = Access.init_basis p;
    init_uniform_superposition = Access.init_uniform_superposition p;
    load_amplitudes = Access.load_amplitudes p;
    export_amplitudes = Access.export_amplitudes p;
    for_each_amplitude_chunk = Access.for_each_amplitude_chunk p;
    amplitude = Access.amplitude p;
    set_amplitude = Access.set_amplitude p;
    probability = Access.probability p;
    total_probability = Access.total_probability p;
    sample_measurement = Access.sample_measurement p;
    phase_flip_basis_state = Transforms.phase_flip_basis_state p;
    inversion_about = Transforms.inversion_about p;
    inversion_about_mean = Transforms.inversion_about_mean p;
    apply_affine_transform = Transforms.apply_affine_transform p;
    apply_hadamard = Kernels.apply_hadamard p;
    apply_pauli_x = Kernels.apply_pauli_x p;
    apply_controlled_phase_shift = Kernels.apply_controlled_phase_shift p;
    apply_controlled_not = Kernels.apply_controlled_not p;
    apply_gate = Matching.apply_gate p;
    begin_operation_batch = Compressed.begin_operation_batch;
    end_operation_batch = Compressed.end_operation_batch p;
  }
