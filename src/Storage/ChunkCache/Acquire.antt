-- ===== src/Storage/ChunkCache/Acquire.antt =====
-- A chunk is acquired: its slot is found or freed and filled, and every chunk keeps its value.
use tmfqsfullstate.Prelude.{
  ℕ, suc, ◌+◌, ◌%◌, ◌<◌, ◌≡◌, ◌≢◌, refl, ap, sym, ◌∙◌, subst, false, List, [], ◌∷◌, ◌++◌, none,
  some, arith, ltb, leb, length, get_or-set, length-set, get_or-append_default, get_or-beyond,
  length-append, Bool-cases, Option-cases, inl, inr,
}
use tmfqsfullstate.Core.Action.{ok}
use tmfqsfullstate.Core.Amplitude.{Double}
use tmfqsfullstate.Storage.ChunkCache.{
  Slot, ChunkCache, ChunkStore, Cached, slot_at, slot_of, empty_slot, set_slot, on_cache,
  flush_slot, evict_slot, take_slot, acquire_in, acquire, least_touched, select_eviction_slot,
  touch_slot,
}
use tmfqsfullstate.Storage.ChunkCache.Represents.{Represents, IsStore, slot_below}
use tmfqsfullstate.Storage.ChunkCache.Fill.{
  filled, fill_slot-eq, filled-Represents, filled-touches, at_chunk,
}
use tmfqsfullstate.Core.StateSpace.{u64_mod}
use tmfqsfullstate.Storage.ChunkCache.Evict.{
  IsTaken, IsTaken-IsAligned, flush_chunk-Represents, free_cache, freed, freed-IsTaken,
  Represents-alike,
}

-- `y` is `x` after the chunk was acquired in slot `k`; the other slots have the chunks that they
-- had, or none.
pub record IsAcquired {W S : Type 0} (chunk k : ℕ) (x y : Cached W S) : Type 0 where
  pub placed : slot_of y.cache chunk ≡ some k
  pub counted : y.cache.touch_counter ≡ (x.cache.touch_counter + 1) % u64_mod
  pub latest : (slot_at y.cache k).touch ≡ y.cache.touch_counter
  pub other_touches : (j : ℕ) → j ≢ k → (slot_at y.cache j).touch ≡ (slot_at x.cache j).touch
  pub other_chunks :
      (j : ℕ) → j ≢ k → (slot_at y.cache j).chunk_index ≡ (slot_at x.cache j).chunk_index
  pub same_capacity : y.cache.capacity ≡ x.cache.capacity

module _ {W : Type 0} where
  least_touched-lt :
      (slots : List (Slot W)) (idx candidate m : ℕ)
      → candidate < idx
      → least_touched slots idx candidate m < idx + length slots
  unfolding least_touched
  least_touched-lt [] idx candidate m h = omega arith
  least_touched-lt (slot ∷ slots) idx candidate m h = elim (Bool-cases (ltb slot.touch m)) [
    | inl e ↦ rw e (omega (arith, least_touched-lt slots (suc idx) idx slot.touch (omega arith)))
    | inr e ↦ rw e (omega (arith, least_touched-lt slots (suc idx) candidate m (omega arith)))
  ]

  pub select_eviction_slot-lt :
      (slots : List (Slot W)) → 0 < length slots → select_eviction_slot slots < length slots
  unfolding select_eviction_slot
  select_eviction_slot-lt [] h = absurd (omega arith)
  select_eviction_slot-lt (slot ∷ slots) h =
      omega (arith, least_touched-lt slots 1 0 slot.touch (omega arith))

module _ {W S : Type 0} ⦃d : Double W⦄ {io : ChunkStore W S} {chunks : ℕ} {size : ℕ → ℕ}
    {IsGood : S → Type 0} {f : ℕ → List W} (s : IsStore io chunks size IsGood) where
  module _ {x : Cached W S} (r : Represents io chunks size IsGood f x) where
    more_slots : ChunkCache W
    more_slots = record x.cache { slots = x.cache.slots ++ empty_slot ∷ [] }

    pushed :
        length x.cache.slots < x.cache.capacity
        → Represents io chunks size IsGood f (record { cache = more_slots; store = x.store })
    unfolding more_slots
    pushed room =
        Represents-alike more_slots refl refl
          (rw (length-append x.cache.slots (empty_slot ∷ [])) (omega arith))
          (λ j. rw (get_or-append_default x.cache.slots j empty_slot) (refl, refl, refl)) r

    pushed-IsTaken :
        IsTaken (length x.cache.slots) x (record { cache = more_slots; store = x.store })
    unfolding more_slots
    pushed-IsTaken =
        let same = λ (j : ℕ). get_or-append_default x.cache.slots j empty_slot in
        record {
          emptied = ground (
            arith,
            same (length x.cache.slots),
            get_or-beyond x.cache.slots (length x.cache.slots) empty_slot,
          );
          inside = rw (length-append x.cache.slots (empty_slot ∷ [])) (omega arith);
          other_chunks = λ j ne. ground (arith, same j);
          other_touches = λ j ne. ground (arith, same j);
          same_counter = refl;
          same_capacity = refl;
        }

    evict_slot-Represents :
        (k : ℕ)
        → k < length x.cache.slots
        → (y : Cached W S) × (evict_slot io k x ≡ (ok tt, y))
          × Represents io chunks size IsGood f y
          × IsTaken k x y
    unfolding evict_slot flush_slot free_cache
    evict_slot-Represents k below =
        let (y, step, ry, same, safe, _) =
          flush_chunk-Represents s k r (slot_at x.cache k).chunk_index refl in
        let inside = subst (λ n. k < n) (sym same.same_length) below in
        let rz = freed s k ry inside safe (slot_at y.cache k).chunk_index refl in
        (
          record {
            cache = free_cache s k ry inside safe (slot_at y.cache k).chunk_index;
            store = y.store;
          },
          rw (step, on_cache) refl,
          rz,
          IsTaken-IsAligned k same
              (freed-IsTaken s k ry inside safe (slot_at y.cache k).chunk_index),
        )

    take_slot-Represents :
        (k : ℕ) × (y : Cached W S) × (take_slot io x ≡ (ok k, y))
        × Represents io chunks size IsGood f y
        × IsTaken k x y
    unfolding take_slot more_slots
    take_slot-Represents = elim (Bool-cases (ltb (length x.cache.slots) x.cache.capacity)) [
      | inl room ↦ (
        length x.cache.slots,
        record { cache = more_slots; store = x.store },
        rw (room, on_cache, more_slots) refl,
        pushed (ground arith),
        pushed-IsTaken,
      )
      | inr full ↦
          let k = select_eviction_slot x.cache.slots in
          let (y, step, ry, t) =
            evict_slot-Represents k
              (select_eviction_slot-lt x.cache.slots (ground (arith, r.room))) in
          (k, y, rw (full, step) refl, ry, t)
    ]

    IsTaken-missing :
        {y : Cached W S} (k chunk : ℕ)
        → Represents io chunks size IsGood f y
        → IsTaken k x y
        → slot_of x.cache chunk ≡ none
        → slot_of y.cache chunk ≡ none
    IsTaken-missing {y} k chunk ry t missing = elim (Option-cases (slot_of y.cache chunk)) [
      | inl e ↦ e
      | inr (j, e) ↦
          let there = ry.chunk_of chunk j e in
          let ne : j ≢ k =
            λ p. absurd (ground (arith, t.emptied, ap (λ i. (slot_at y.cache i).chunk_index) p)) in
          absurd (ground (arith, r.slot_with chunk j (sym (t.other_chunks j ne) ∙ there)))
    ]

    acquire_missing :
        (chunk : ℕ)
        → chunk < chunks
        → slot_of x.cache chunk ≡ none
        → (k : ℕ) × (y : Cached W S) × (acquire_in io chunk none x ≡ (ok k, y))
          × Represents io chunks size IsGood f y
          × IsAcquired chunk k x y
    unfolding acquire_in
    acquire_missing chunk exists missing =
        let (k, y, step, ry, t) = take_slot-Represents in
        let absent = IsTaken-missing k chunk ry t missing in
        let (now, counter, others, cap) =
          filled-touches s k chunk ry t.inside t.emptied exists absent in
        (
          k,
          filled s k chunk ry t.inside t.emptied exists absent,
          rw step (fill_slot-eq s k chunk ry t.inside t.emptied exists absent),
          filled-Represents s k chunk ry t.inside t.emptied exists absent,
          record {
            placed = ground (arith, at_chunk s k chunk ry t.inside t.emptied exists absent chunk);
            counted = counter ∙ ap (λ n. (n + 1) % u64_mod) t.same_counter;
            latest = now ∙ sym counter;
            other_touches = λ j ne. (others j ne).0 ∙ t.other_touches j ne;
            other_chunks = λ j ne. (others j ne).1 ∙ t.other_chunks j ne;
            same_capacity = cap ∙ t.same_capacity;
          },
        )

    acquire_mapped :
        (chunk k : ℕ)
        → slot_of x.cache chunk ≡ some k
        → (y : Cached W S) × (acquire_in io chunk (some k) x ≡ (ok k, y))
          × Represents io chunks size IsGood f y
          × IsAcquired chunk k x y
    unfolding acquire_in touch_slot set_slot
    acquire_mapped chunk k e =
        let below = slot_below x.cache k chunk (r.chunk_of chunk k e) in
        let now = (x.cache.touch_counter + 1) % u64_mod in
        let slot : Slot W = record (slot_at x.cache k) { touch = now } in
        let at = λ (j : ℕ). get_or-set x.cache.slots k j slot empty_slot below in
        (
          record x { cache = touch_slot k x.cache },
          refl,
          Represents-alike (touch_slot k x.cache) refl refl
              (rw (length-set x.cache.slots k slot) r.within)
              (λ j. (ground (arith, at j), ground (arith, at j), ground (arith, at j))) r,
          record {
            placed = e;
            counted = refl;
            latest = ground (arith, at k);
            other_touches = λ j ne. ground (arith, at j);
            other_chunks = λ j ne. ground (arith, at j);
            same_capacity = refl;
          },
        )

    -- On a cache that represents the values of its chunks, over a store that gives back what was stored
    -- last, acquire of a chunk of the store returns: the chunk is mapped to the slot that it returns,
    -- and the cache represents the same values, whether the chunk was there, a new slot was taken, or
    -- a slot was written back and reused.
    pub acquire-Represents :
        (chunk : ℕ)
        → chunk < chunks
        → (k : ℕ) × (y : Cached W S) × (acquire io chunk x ≡ (ok k, y))
          × Represents io chunks size IsGood f y
          × IsAcquired chunk k x y
    unfolding acquire
    acquire-Represents chunk exists =
        let inside : leb (length x.cache.chunk_to_slot) chunk ≡ false = ground (arith, r.mapped) in
        elim (Option-cases (slot_of x.cache chunk)) [
          | inl missing ↦
              let (k, y, step, ry, a) = acquire_missing chunk exists missing in
              (k, y, rw (inside, missing) step, ry, a)
          | inr (k, e) ↦
              let (y, step, ry, a) = acquire_mapped chunk k e in (k, y, rw (inside, e) step, ry, a)
        ]
