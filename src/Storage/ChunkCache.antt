-- ===== src/Storage/ChunkCache.antt =====
-- storage/common/chunk_cache.h: decompressed chunks in at most `capacity_` slots, written back when a
-- slot is reused. `kInvalidIndex` is `none`. A SlotHandle is the index of its slot: `data` and
-- `dirty` are the buffer and the flag of that slot. A slot index outside of the slots, which C++
-- leaves undefined, reads an empty slot and writes nothing.
pub mod Represents
pub mod Evict
pub mod Acquire
pub mod Fill
pub mod Write
use tmfqsfullstate.Prelude.{
  ℕ, zero, suc, ◌+◌, ◌%◌, Bool, true, false, not, List, [], ◌∷◌, ◌++◌, Option, none, some, ltb, leb,
  ◌==◌, if◌then◌else◌, length, get_or, set, replicate,
}
use tmfqsfullstate.Core.Action.{
  Result, ok, err, invalid_argument, out_of_range, logic_error, Action, ◌>>=◌, ◌>>◌, pure, lift,
  current, modify, continue, throw_if,
}
use tmfqsfullstate.Core.Amplitude.{Double, nought}
use tmfqsfullstate.Core.StateSpace.{u64_mod}

pub record Slot (W : Type 0) : Type 0 where
  pub chunk_index : Option ℕ
  pub buffer : List W
  pub dirty : Bool
  pub touch : ℕ

pub record ChunkCache (W : Type 0) : Type 0 where
  pub capacity : ℕ
  pub slots : List (Slot W)
  pub chunk_to_slot : List (Option ℕ)
  pub touch_counter : ℕ

-- The callbacks of a call, which work on the owner's state: `load_chunk` takes the chunk, the buffer
-- and the number of elements, and gives the buffer's new value.
pub record ChunkStore (W S : Type 0) : Type 0 where
  pub load_chunk : ℕ → List W → ℕ → Action S (List W)
  pub store_chunk : ℕ → List W → ℕ → Action S (Unit {0})
  pub elem_count : S → ℕ → ℕ

-- The cache beside the state that its callbacks work on.
pub record Cached (W S : Type 0) : Type 0 where
  pub cache : ChunkCache W
  pub store : S

unfoldable pub unmap_chunk : Option ℕ → List (Option ℕ) → List (Option ℕ)
unmap_chunk none chunk_to_slot = chunk_to_slot
unmap_chunk (some chunk) chunk_to_slot = set chunk_to_slot chunk none

module _ {W : Type 0} where
  -- Slot{}
  abbrev pub empty_slot : Slot W
  empty_slot = record { chunk_index = none; buffer = []; dirty = false; touch = 0 }

  abbrev pub slot_at : ChunkCache W → ℕ → Slot W
  slot_at c k = get_or c.slots k empty_slot

  abbrev pub slot_of : ChunkCache W → ℕ → Option ℕ
  slot_of c chunk = get_or c.chunk_to_slot chunk none

  unfoldable pub set_slot : ℕ → Slot W → ChunkCache W → ChunkCache W
  set_slot k slot c = record c { slots = set c.slots k slot }

  unfoldable pub map_chunk_to : ℕ → Option ℕ → ChunkCache W → ChunkCache W
  map_chunk_to chunk k c = record c { chunk_to_slot = set c.chunk_to_slot chunk k }

  unfoldable pub configure : ℕ → ℕ → Action (ChunkCache W) (Unit {0})
  configure capacity chunk_count =
      lift (throw_if (capacity == 0) invalid_argument)
      >> modify (λ _. record {
        capacity = capacity;
        slots = [];
        chunk_to_slot = replicate chunk_count none;
        touch_counter = 0;
      })

  unfoldable pub clear : ChunkCache W → ChunkCache W
  clear c = record c {
    slots = [];
    chunk_to_slot = replicate (length c.chunk_to_slot) none;
    touch_counter = 0;
  }

  -- slot.touch = ++touchCounter_
  unfoldable pub touch_slot : ℕ → ChunkCache W → ChunkCache W
  unfolding set_slot
  touch_slot k c =
      let now = (c.touch_counter + 1) % u64_mod in
      let marked = set_slot k (record (slot_at c k) { touch = now }) c in
      record marked { touch_counter = now }

  -- the loop of `selectEvictionSlot` from the index `idx` on
  unfoldable pub least_touched : List (Slot W) → ℕ → ℕ → ℕ → ℕ
  least_touched [] idx candidate min_touch = candidate
  least_touched (slot ∷ slots) idx candidate min_touch =
      let earlier = ltb slot.touch min_touch in
      least_touched slots (suc idx) (if earlier then idx else candidate)
        (if earlier then slot.touch else min_touch)

  unfoldable pub select_eviction_slot : List (Slot W) → ℕ
  unfolding least_touched
  select_eviction_slot [] = 0
  select_eviction_slot (slot ∷ slots) = least_touched slots 1 0 slot.touch

  unfoldable pub find_buffer : ChunkCache W → ℕ → Option (List W)
  find_buffer c chunk =
      if leb (length c.chunk_to_slot) chunk
      then none
      else elim (slot_of c chunk) [ none ↦ none | some k ↦ some (slot_at c k).buffer ]

  -- What the owner does through a handle: `data` is written, or `dirty` is set.
  unfoldable pub write_buffer : ℕ → List W → ChunkCache W → ChunkCache W
  unfolding set_slot
  write_buffer k buffer c = set_slot k (record (slot_at c k) { buffer = buffer }) c

  unfoldable pub mark_dirty : ℕ → ChunkCache W → ChunkCache W
  unfolding set_slot
  mark_dirty k c = set_slot k (record (slot_at c k) { dirty = true }) c

module _ {W S : Type 0} where
  -- A method of the cache that makes no call of a callback.
  unfoldable pub on_cache : (ChunkCache W → ChunkCache W) → Action (Cached W S) (Unit {0})
  on_cache f = modify (λ x. record x { cache = f x.cache })

  -- A call of a callback.
  abbrev pub rejoin : {A : Type 0} → ChunkCache W → Result A × S → Result A × Cached W S
  rejoin c (r, s) = (r, record { cache = c; store = s })

  unfoldable pub on_store : {A : Type 0} → Action S A → Action (Cached W S) A
  on_store m x = rejoin x.cache (m x.store)

module _ {W S : Type 0} ⦃d : Double W⦄ (io : ChunkStore W S) where
  -- the chunk of the slot, if any
  unfoldable pub flush_chunk : ℕ → Option ℕ → Action (Cached W S) (Unit {0})
  unfolding on_store on_cache set_slot
  flush_chunk k none x = (ok tt, x)
  flush_chunk k (some chunk) x =
      let slot = slot_at x.cache k in
      let count = io.elem_count x.store chunk in
      if not slot.dirty
      then (ok tt, x)
      else if not (length slot.buffer == count)
      then (err logic_error, x)
      else (on_store (io.store_chunk chunk slot.buffer count)
            >> on_cache (λ c. set_slot k (record (slot_at c k) { dirty = false }) c))
          x

  unfoldable pub flush_slot : ℕ → Action (Cached W S) (Unit {0})
  unfolding flush_chunk
  flush_slot k x = flush_chunk k (slot_at x.cache k).chunk_index x

  unfoldable pub evict_slot : ℕ → Action (Cached W S) (Unit {0})
  unfolding flush_slot unmap_chunk on_cache set_slot
  evict_slot k =
      flush_slot k
      >> on_cache
          (λ c. record c { chunk_to_slot = unmap_chunk (slot_at c k).chunk_index c.chunk_to_slot })
      >> on_cache (λ c.
        set_slot k (record (slot_at c k) { chunk_index = none; dirty = false; touch = 0 }) c)

  -- a new slot while there is room, else the least recently touched one
  unfoldable pub take_slot : Action (Cached W S) ℕ
  unfolding on_cache evict_slot select_eviction_slot
  take_slot = current >>= λ x.
      let c = x.cache in
      if ltb (length c.slots) c.capacity
      then on_cache (λ c. record c { slots = c.slots ++ empty_slot ∷ [] }) >> pure (length c.slots)
      else evict_slot (select_eviction_slot c.slots) >> pure (select_eviction_slot c.slots)

  unfoldable pub fill_slot : ℕ → ℕ → Action (Cached W S) ℕ
  unfolding on_cache on_store set_slot touch_slot map_chunk_to
  fill_slot chunk k =
      on_cache (λ c.
        touch_slot k
          (set_slot k (record (slot_at c k) { chunk_index = some chunk; dirty = false }) c))
      >> (current >>= λ x.
          let count = io.elem_count x.store chunk in
          let held = (slot_at x.cache k).buffer in
          let buffer = if length held == count then held else replicate count nought in
          lift (throw_if (count == 0) logic_error)
          >> on_cache (λ c. set_slot k (record (slot_at c k) { buffer = buffer }) c)
          >> (on_store (io.load_chunk chunk buffer count) >>= λ loaded.
              on_cache (λ c. set_slot k (record (slot_at c k) { buffer = loaded }) c))
          >> on_cache (map_chunk_to chunk (some k))
          >> pure k)

  -- the slot that the chunk is mapped to, if any
  unfoldable pub acquire_in : ℕ → Option ℕ → Action (Cached W S) ℕ
  unfolding on_cache touch_slot take_slot fill_slot
  acquire_in chunk (some k) = on_cache (touch_slot k) >> pure k
  acquire_in chunk none = take_slot >>= fill_slot chunk

  unfoldable pub acquire : ℕ → Action (Cached W S) ℕ
  unfolding acquire_in
  acquire chunk = current >>= λ x.
      if leb (length x.cache.chunk_to_slot) chunk
      then lift (err out_of_range)
      else acquire_in chunk (slot_of x.cache chunk)

  -- `n` slots from the index `k` on
  unfoldable pub flush_slots : ℕ → ℕ → Action (Cached W S) (Unit {0})
  unfolding flush_slot
  flush_slots zero k x = (ok tt, x)
  flush_slots (suc n) k x = continue (flush_slot k x) (λ _. flush_slots n (suc k))

  unfoldable pub flush_all : Action (Cached W S) (Unit {0})
  unfolding flush_slots
  flush_all = current >>= λ x. flush_slots (length x.cache.slots) 0
