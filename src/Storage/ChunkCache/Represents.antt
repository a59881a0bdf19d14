-- ===== src/Storage/ChunkCache/Represents.antt =====
-- What a cache over a store of chunks holds: the present value of each chunk stands in its slot, or
-- in the store where no slot has it or the slot is clean.
use tmfqsfullstate.Prelude.{
  ℕ, ◌≤◌, ◌<◌, ◌≡◌, ◌≢◌, ap, sym, ◌∙◌, subst, false, List, none, some, arith, length, get_or-beyond,
}
use tmfqsfullstate.Core.Action.{ok}
use tmfqsfullstate.Storage.ChunkCache.{ChunkCache, ChunkStore, Cached, slot_at, slot_of, empty_slot}

-- The store gives this value for a chunk.
abbrev pub Loads : {W S : Type 0} → ChunkStore W S → (ℕ → ℕ) → S → ℕ → List W → Type 0
Loads {W} io size s chunk value =
    (buffer : List W) → io.load_chunk chunk buffer (size chunk) s ≡ (ok value, s)

-- A store of `chunks` chunks, of `size c` elements each, that gives back what was stored last.
pub record IsStore {W S : Type 0} (io : ChunkStore W S) (chunks : ℕ) (size : ℕ → ℕ)
    (IsGood : S → Type 0) : Type 0 where
  pub occupied : (c : ℕ) → c < chunks → 0 < size c
  pub counts : (s : S) (c : ℕ) → IsGood s → c < chunks → io.elem_count s c ≡ size c
  pub stores :
      (s : S) (c : ℕ) (value : List W)
      → IsGood s
      → c < chunks
      → length value ≡ size c
      → (s' : S) × (io.store_chunk c value (size c) s ≡ (ok tt, s'))
        × IsGood s'
        × Loads io size s' c value
        × ((j : ℕ) (other : List W) → j ≢ c → Loads io size s j other → Loads io size s' j other)

module _ {W S : Type 0} (io : ChunkStore W S) (chunks : ℕ) (size : ℕ → ℕ)
    (IsGood : S → Type 0) where
  -- The cache with its store holds the value `f c` for each chunk `c`.
  pub record Represents (f : ℕ → List W) (x : Cached W S) : Type 0 where
    pub good : IsGood x.store
    pub room : 0 < x.cache.capacity
    pub within : length x.cache.slots ≤ x.cache.capacity
    pub mapped : length x.cache.chunk_to_slot ≡ chunks
    pub chunk_of : (c k : ℕ) → slot_of x.cache c ≡ some k → (slot_at x.cache k).chunk_index ≡ some c
    pub slot_with :
        (c k : ℕ) → (slot_at x.cache k).chunk_index ≡ some c → slot_of x.cache c ≡ some k
    pub sized : (c : ℕ) → c < chunks → length (f c) ≡ size c
    pub cached :
        (c k : ℕ) → (slot_at x.cache k).chunk_index ≡ some c → (slot_at x.cache k).buffer ≡ f c
    pub clean :
        (c k : ℕ)
        → (slot_at x.cache k).chunk_index ≡ some c
        → (slot_at x.cache k).dirty ≡ false
        → Loads io size x.store c (f c)
    pub stored : (c : ℕ) → c < chunks → slot_of x.cache c ≡ none → Loads io size x.store c (f c)

module _ {W : Type 0} (c : ChunkCache W) where
  -- Only a slot of the cache has a chunk, and only a chunk of the cache has a slot.
  pub slot_below : (k chunk : ℕ) → (slot_at c k).chunk_index ≡ some chunk → k < length c.slots
  slot_below k chunk e = ground (arith, get_or-beyond c.slots k empty_slot)

  pub chunk_below : (chunk k : ℕ) → slot_of c chunk ≡ some k → chunk < length c.chunk_to_slot
  chunk_below chunk k e = ground (arith, get_or-beyond c.chunk_to_slot chunk none)

-- Only the values of the store's chunks count.
pub Represents-congr :
    {W S : Type 0} {io : ChunkStore W S} {chunks : ℕ} {size : ℕ → ℕ} {IsGood : S → Type 0}
    {f g : ℕ → List W} {x : Cached W S}
    → ((c : ℕ) → c < chunks → f c ≡ g c)
    → Represents io chunks size IsGood f x
    → Represents io chunks size IsGood g x
Represents-congr {io} {chunks} {size} {f} {g} {x} same r =
    let within = λ (c k : ℕ) (q : (slot_at x.cache k).chunk_index ≡ some c).
      subst (λ n. c < n) r.mapped (chunk_below x.cache c k (r.slot_with c k q)) in
    record {
      good = r.good;
      room = r.room;
      within = r.within;
      mapped = r.mapped;
      chunk_of = r.chunk_of;
      slot_with = r.slot_with;
      sized = λ c h. ap length (sym (same c h)) ∙ r.sized c h;
      cached = λ c k q. r.cached c k q ∙ same c (within c k q);
      clean = λ c k q h. subst (Loads io size x.store c) (same c (within c k q)) (r.clean c k q h);
      stored = λ c h q. subst (Loads io size x.store c) (same c h) (r.stored c h q);
    }
