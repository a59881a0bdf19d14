-- ===== src/Storage/ChunkCache/Write.antt =====
-- A write through a handle changes one chunk's value; writing all slots back changes none.
use native.Mathlib.Decide.{ℕ_discrete}
use tmfqsfullstate.Prelude.{
  ℕ, zero, suc, ◌+◌, ◌<◌, ◌≡◌, ◌≢◌, refl, ap, sym, ◌∙◌, subst, true, false, List, [], none, some,
  arith, ◌==◌, leb, if◌then◌else◌, length, get_or-set, length-set, get_or-set_self, set-set,
  Option-cases, inl, inr, ◌⊎◌, replicate, length-replicate, get_or-replicate,
}
use tmfqsfullstate.Core.Action.{ok}
use tmfqsfullstate.Core.Amplitude.{Double}
use tmfqsfullstate.Storage.ChunkCache.{
  Slot, ChunkCache, ChunkStore, Cached, slot_at, slot_of, empty_slot, set_slot, write_buffer,
  mark_dirty, flush_slot, flush_slots, flush_all, find_buffer,
}
use tmfqsfullstate.Storage.ChunkCache.Represents.{Represents, IsStore, Loads, slot_below}
use tmfqsfullstate.Storage.ChunkCache.Evict.{flush_chunk-Represents}

-- The value of one chunk replaced.
abbrev pub update : {A : Type 0} → (ℕ → A) → ℕ → A → ℕ → A
update f chunk value c = if c == chunk then value else f c

module _ {W S : Type 0} {io : ChunkStore W S} {chunks : ℕ} {size : ℕ → ℕ} {IsGood : S → Type 0}
    {f : ℕ → List W} {x : Cached W S} (r : Represents io chunks size IsGood f x) where
  module _ (chunk k : ℕ) (placed : slot_of x.cache chunk ≡ some k) (value : List W)
      (long : length value ≡ size chunk) where
    written : ChunkCache W
    written = mark_dirty k (write_buffer k value x.cache)

    abbrev pub dirty_slot : Slot W
    dirty_slot = record (slot_at x.cache k) { buffer = value; dirty = true }

    written-eq : written ≡ set_slot k dirty_slot x.cache
    unfolding written mark_dirty write_buffer set_slot
    written-eq =
        let below = slot_below x.cache k chunk (r.chunk_of chunk k placed) in
        simp (get_or-set_self, set-set, below)

    pub dirtied-Represents :
        Represents io chunks size IsGood
          (update f chunk value)
          (record { cache = set_slot k dirty_slot x.cache; store = x.store })
    unfolding set_slot
    dirtied-Represents =
        let there = r.chunk_of chunk k placed in
        let below = slot_below x.cache k chunk there in
        let at = λ (j : ℕ). get_or-set x.cache.slots k j dirty_slot empty_slot below in
        record {
          good = r.good;
          room = r.room;
          within = rw (length-set x.cache.slots k dirty_slot) r.within;
          mapped = r.mapped;
          chunk_of = λ c j q. ground (arith, at j, r.chunk_of c j q);
          slot_with = λ c j q. r.slot_with c j (ground (arith, at j));
          sized = λ c h. ground (arith, r.sized c h);
          cached = λ c j q. ground (arith, at j, r.cached c j, r.slot_with c j);
          clean = λ c j q h.
              let other : j ≢ k = λ p. absurd (
                ground
                  (arith, at k, ap (λ i. (slot_at (set_slot k dirty_slot x.cache) i).dirty) p)) in
              let q' : (slot_at x.cache j).chunk_index ≡ some c = ground (arith, at j) in
              let ne : c ≢ chunk =
                λ p. absurd (other (ground (arith, r.slot_with c j q', ap (slot_of x.cache) p))) in
              subst (Loads io size x.store c) (ground arith)
                (r.clean c j q' (ground (arith, at j)));
          stored = λ c h q.
              let ne : c ≢ chunk = λ p. absurd (ground (arith, ap (slot_of x.cache) p)) in
              subst (Loads io size x.store c) (ground arith) (r.stored c h q);
        }

    -- What the owner writes through the handle of a chunk becomes its value.
    pub written-Represents :
        Represents io chunks size IsGood
          (update f chunk value)
          (record { cache = mark_dirty k (write_buffer k value x.cache); store = x.store })
    unfolding written
    written-Represents = rw written-eq dirtied-Represents

module _ {W S : Type 0} ⦃d : Double W⦄ {io : ChunkStore W S} {chunks : ℕ} {size : ℕ → ℕ}
    {IsGood : S → Type 0} {f : ℕ → List W} (s : IsStore io chunks size IsGood) where
  flush_slots-Represents :
      (n k : ℕ) {x : Cached W S}
      → Represents io chunks size IsGood f x
      → ((j c : ℕ)
          → j < k
          → (slot_at x.cache j).chunk_index ≡ some c
          → Loads io size x.store c (f c))
      → (y : Cached W S) × (flush_slots io n k x ≡ (ok tt, y))
        × Represents io chunks size IsGood f y
        × (y.cache.chunk_to_slot ≡ x.cache.chunk_to_slot)
        × (y.cache.touch_counter ≡ x.cache.touch_counter)
        × (length y.cache.slots ≡ length x.cache.slots)
        × ((j c : ℕ)
            → j < k + n
            → (slot_at y.cache j).chunk_index ≡ some c
            → Loads io size y.store c (f c))
  unfolding flush_slots flush_slot
  flush_slots-Represents zero k {x} r before =
      (x, refl, r, refl, refl, refl, λ j c h. before j c (omega arith))
  flush_slots-Represents (suc n) k {x} r before =
      let (y, step, ry, same, safe, kept) =
        flush_chunk-Represents s k r (slot_at x.cache k).chunk_index refl in
      let (z, rest, rz, map_, counter, slots, after) =
        flush_slots-Represents n (suc k) ry (λ j c h q. elim (ℕ_discrete j k) [
          | yes p ↦ safe c (ap (λ i. (slot_at y.cache i).chunk_index) (sym p) ∙ q)
          | no ne ↦ kept c (before j c (omega arith) (sym (same.same_chunks j) ∙ q))
        ]) in
      (
        z,
        rw step rest,
        rz,
        map_ ∙ same.same_map,
        counter ∙ same.same_counter,
        slots ∙ same.same_length,
        λ j c h. after j c (omega arith),
      )

  -- On a cache that represents the values of its chunks, over a store that gives back what was stored
  -- last, flushAll returns, and the cache represents the same values with the same chunks mapped and
  -- the counter unchanged; afterwards the store has the value of every chunk.
  pub flush_all-Represents :
      {x : Cached W S}
      → Represents io chunks size IsGood f x
      → (y : Cached W S) × (flush_all io x ≡ (ok tt, y))
        × Represents io chunks size IsGood f y
        × (y.cache.chunk_to_slot ≡ x.cache.chunk_to_slot)
        × (y.cache.touch_counter ≡ x.cache.touch_counter)
        × ((c : ℕ) → c < chunks → Loads io size y.store c (f c))
  unfolding flush_all
  flush_all-Represents {x} r =
      let (y, step, ry, map_, counter, slots, after) =
        flush_slots-Represents (length x.cache.slots) 0 r (λ j c h. absurd (omega arith)) in
      (
        y,
        step,
        ry,
        map_,
        counter,
        λ c h. elim (Option-cases (slot_of y.cache c)) [
          | inl e ↦ ry.stored c h e
          | inr (k, e) ↦
              let there = ry.chunk_of c k e in
              after k c (omega (arith, slot_below y.cache k c there)) there
        ],
      )

module _ {W S : Type 0} {io : ChunkStore W S} {chunks : ℕ} {size : ℕ → ℕ} {IsGood : S → Type 0}
    {f : ℕ → List W} where
  -- A buffer that is found holds the value of the chunk, and where none is, the store has it.
  pub find_buffer-Represents :
      {x : Cached W S} (c : ℕ)
      → Represents io chunks size IsGood f x
      → c < chunks
      → ((find_buffer x.cache c ≡ none) × Loads io size x.store c (f c))
        ⊎ (find_buffer x.cache c ≡ some (f c))
  unfolding find_buffer
  find_buffer-Represents {x} c r h =
      let inside : leb (length x.cache.chunk_to_slot) c ≡ false = ground (arith, r.mapped) in
      elim (Option-cases (slot_of x.cache c)) [
        | inl e ↦ inl (rw (inside, e) refl, r.stored c h e)
        | inr (k, e) ↦ inr (rw (inside, e) (ap some (r.cached c k (r.chunk_of c k e))))
      ]

  -- A cache that `configure` has set up, over a store that has every chunk.
  pub configured-Represents :
      (capacity : ℕ) (s : S)
      → 0 < capacity
      → IsGood s
      → ((c : ℕ) → c < chunks → length (f c) ≡ size c)
      → ((c : ℕ) → c < chunks → Loads io size s c (f c))
      → Represents io chunks size IsGood f (record {
        cache = record {
          capacity = capacity;
          slots = [];
          chunk_to_slot = replicate chunks none;
          touch_counter = 0;
        };
        store = s;
      })
  configured-Represents capacity s room good sized loads =
      let fresh : ChunkCache W = record {
        capacity = capacity;
        slots = [];
        chunk_to_slot = replicate chunks none;
        touch_counter = 0;
      } in
      record {
        good = good;
        room = room;
        within = omega arith;
        mapped = length-replicate chunks none;
        chunk_of = λ c k q. let e : slot_of fresh c ≡ none = get_or-replicate chunks c none in cc;
        slot_with = λ c k q. cc;
        sized = sized;
        cached = λ c k q. cc;
        clean = λ c k q h. cc;
        stored = λ c h q. loads c h;
      }
