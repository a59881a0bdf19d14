-- ===== src/Storage.antt =====
-- include/tmfqs/storage and src/tmfqs/storage: the state-vector backends and what they share.
pub mod ChunkCache
pub mod ChunkLayout
pub mod Selected
pub mod Dense
pub mod Codec
pub mod Blosc
pub mod Compressed
pub mod PairKernel
pub mod GateBlock
pub mod Backend
pub mod Registry
