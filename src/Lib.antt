-- ===== src/Lib.antt =====
-- A model of the core of TMFQS, a full-state simulator of quantum circuits, and theorems about it.
--
-- The program builds a circuit (src/tmfqs/circuit/circuit.cpp), which the simulator
-- (src/tmfqs/sim/simulator.cpp) performs on a register (src/tmfqs/register/quantum_register.cpp). The
-- register keeps a lazy affine overlay and forwards to a storage backend through the interface of
-- include/tmfqs/storage/i_state_backend.h. One backend keeps the whole vector
-- (src/tmfqs/storage/dense/dense_state_backend.cpp), the others keep it in compressed chunks
-- (include/tmfqs/storage/common/compressed_state_backend.h) behind a cache of decompressed ones
-- (include/tmfqs/storage/common/chunk_cache.h). The native gates run a callback over pairs of
-- states (include/tmfqs/storage/common/pair_kernel_executor.h), all other gates go through the block
-- engine (include/tmfqs/storage/gate_block_apply.h).
--
-- Prelude: tests, lists and loops on native numbers, and integers for concrete runs.
-- Core/Action: exceptions as values, methods as actions on the object's state. Core/Amplitude: an
--   abstract `double`, amplitudes (core/types.h, core/math.cpp). Core/StateSpace: numbers of states
--   (core/state_space.h). Core/Validation: core/validation.h, storage/common/backend_validation.h.
-- Config: config/register_config.h. Gates: gates/quantum_gate.cpp.
-- Storage/ChunkLayout, Storage/PairKernel: storage/common/chunk_layout.h and
--   pair_kernel_executor.h. Storage/GateBlock: storage/gate_block_apply.h and
--   common/gate_apply_engine.h. Storage/Selected: sorted lists of states. Storage/Backend:
--   storage/i_state_backend.h and its contract. Storage/Registry:
--   storage/factory/storage_strategy_registry.cpp. Storage/Dense: the dense backend, its gates in
--   Storage/Dense/Kernels. Storage/ChunkCache: the cache; Represents says what it holds. Storage/Codec:
--   the codec policy, a parameter of Storage/Compressed, the compressed backend; Holds says which
--   vector it holds, whatever is cached, dirty or compressed, and Refines what it means that it does
--   what the dense backend does.
-- Storage/Blosc: storage/blosc/blosc_codec.cpp around the functions of blosc2, with its contexts and
--   its scratch buffer, on whose size the bytes may depend; a codec policy is a function of the
--   configuration and has no such state.
-- Register: register/quantum_register.cpp. Circuit: circuit/circuit.cpp. State:
--   state/quantum_state.cpp, its checks on a loaded vector in State/Validation, its operations in
--   State/Access and its constructors in State/Build. Simulator: sim/simulator.cpp.
-- Tests: concrete runs, with integers in the place of doubles.
--
-- A record has the fields of the class, a function stands for each method under the method's name in
-- snake case, and an exception is its class. A `double` is an abstract type with the operations of the
-- language, about which nothing is assumed but what a theorem states. An `unsigned int` has 32 bits, a
-- `size_t` and a `StateIndex` 64: products, shifts and conversions that can wrap are taken modulo
-- 2^32 or 2^64. Memory is not bounded. A list read out of bounds gives 0.0, and a write there changes
-- nothing; both are undefined in C++.
--
-- A loop has its limit as fuel, which is enough for a positive stride, since each round adds at
-- least 1 to the counter. The loop of sparsePattern takes its fuel as an argument, of which a round
-- for every 8 states and two more are enough.
--
-- A handle of the cache is the index of its slot. The pointers of a handle stay valid as long as
-- `slots_` is not reallocated, which configure's `reserve` provides for; a copy of a cache may lose it,
-- which is not modelled. The touch counter has 64 bits and wraps around.
--
-- Not modelled: the zfp codec and the super-chunk of the Blosc codec (a codec is a parameter of the
-- compressed backend), comparison and reports, printing, times and metrics. The numbers that the
-- random sources give, the constant pi, the functions of blosc2 and the backend that the factory makes
-- are arguments.
pub mod Prelude
pub mod Core
pub mod Gates
pub mod Config
pub mod Storage
pub mod Register
pub mod Circuit
pub mod State
pub mod Simulator
pub mod Tests
