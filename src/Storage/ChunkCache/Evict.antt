-- ===== src/Storage/ChunkCache/Evict.antt =====
-- Touching, writing back and freeing a slot change no chunk's value.
use native.Mathlib.Decide.{ℕ_discrete}
use tmfqsfullstate.Prelude.{
  ℕ, ◌≤◌, ◌<◌, ◌≡◌, ◌≢◌, refl, ap, sym, ◌∙◌, subst, true, false, List, Option, none, some, arith,
  ◌==◌, if◌then◌else◌, length, get_or, set, get_or-set, length-set, Bool-cases, inl, inr,
}
use tmfqsfullstate.Core.Action.{ok}
use tmfqsfullstate.Core.Amplitude.{Double}
use tmfqsfullstate.Storage.ChunkCache.{
  Slot, ChunkCache, ChunkStore, Cached, slot_at, empty_slot, set_slot, unmap_chunk, on_cache,
  on_store, flush_chunk,
}
use tmfqsfullstate.Storage.ChunkCache.Represents.{
  Represents, IsStore, Loads, slot_below, chunk_below,
}

-- Two states of a cache with the same chunks in the same slots, touched at the same times.
pub record IsAligned {W S : Type 0} (x y : Cached W S) : Type 0 where
  pub same_chunks : (k : ℕ) → (slot_at y.cache k).chunk_index ≡ (slot_at x.cache k).chunk_index
  pub same_touches : (k : ℕ) → (slot_at y.cache k).touch ≡ (slot_at x.cache k).touch
  pub same_length : length y.cache.slots ≡ length x.cache.slots
  pub same_map : y.cache.chunk_to_slot ≡ x.cache.chunk_to_slot
  pub same_capacity : y.cache.capacity ≡ x.cache.capacity
  pub same_counter : y.cache.touch_counter ≡ x.cache.touch_counter

-- Slot `k` of `y` is free, and the other slots are as in `x`.
pub record IsTaken {W S : Type 0} (k : ℕ) (x y : Cached W S) : Type 0 where
  pub emptied : (slot_at y.cache k).chunk_index ≡ none
  pub inside : k < length y.cache.slots
  pub other_chunks :
      (j : ℕ) → j ≢ k → (slot_at y.cache j).chunk_index ≡ (slot_at x.cache j).chunk_index
  pub other_touches : (j : ℕ) → j ≢ k → (slot_at y.cache j).touch ≡ (slot_at x.cache j).touch
  pub same_counter : y.cache.touch_counter ≡ x.cache.touch_counter
  pub same_capacity : y.cache.capacity ≡ x.cache.capacity

pub IsTaken-IsAligned :
    {W S : Type 0} (k : ℕ) {x y z : Cached W S} → IsAligned x y → IsTaken k y z → IsTaken k x z
IsTaken-IsAligned k a t = record {
  emptied = t.emptied;
  inside = t.inside;
  other_chunks = λ j ne. t.other_chunks j ne ∙ a.same_chunks j;
  other_touches = λ j ne. t.other_touches j ne ∙ a.same_touches j;
  same_counter = t.same_counter ∙ a.same_counter;
  same_capacity = t.same_capacity ∙ a.same_capacity;
}

pub IsAligned-refl : {W S : Type 0} (x : Cached W S) → IsAligned x x
IsAligned-refl x = record {
  same_chunks = λ k. refl;
  same_touches = λ k. refl;
  same_length = refl;
  same_map = refl;
  same_capacity = refl;
  same_counter = refl;
}

module _ {W S : Type 0} {io : ChunkStore W S} {chunks : ℕ} {size : ℕ → ℕ} {IsGood : S → Type 0}
    {f : ℕ → List W} where
  -- A cache whose slots have the same chunks, buffers and flags.
  pub Represents-alike :
      {x : Cached W S} (c : ChunkCache W)
      → c.capacity ≡ x.cache.capacity
      → c.chunk_to_slot ≡ x.cache.chunk_to_slot
      → length c.slots ≤ c.capacity
      → ((k : ℕ)
          → ((slot_at c k).chunk_index ≡ (slot_at x.cache k).chunk_index)
            × ((slot_at c k).buffer ≡ (slot_at x.cache k).buffer)
            × ((slot_at c k).dirty ≡ (slot_at x.cache k).dirty))
      → Represents io chunks size IsGood f x
      → Represents io chunks size IsGood f (record { cache = c; store = x.store })
  Represents-alike {x} c cap map_ fits alike r = record {
    good = r.good;
    room = subst (λ n. 0 < n) (sym cap) r.room;
    within = fits;
    mapped = ap length map_ ∙ r.mapped;
    chunk_of = λ ch k e. (alike k).0 ∙ r.chunk_of ch k (sym (ap (λ m. get_or m ch none) map_) ∙ e);
    slot_with = λ ch k e. ap (λ m. get_or m ch none) map_ ∙ r.slot_with ch k (sym (alike k).0 ∙ e);
    sized = r.sized;
    cached = λ ch k e. (alike k).1 ∙ r.cached ch k (sym (alike k).0 ∙ e);
    clean = λ ch k e h. r.clean ch k (sym (alike k).0 ∙ e) (sym (alike k).2 ∙ h);
    stored = λ ch h e. r.stored ch h (sym (ap (λ m. get_or m ch none) map_) ∙ e);
  }

  module _ {x : Cached W S} (k : ℕ) (r : Represents io chunks size IsGood f x) where
    abbrev clean_slot : Slot W
    clean_slot = record (slot_at x.cache k) { dirty = false }

    -- The store has the slot's chunk already, or takes it.
    written_back :
        (chunk : ℕ)
        → (slot_at x.cache k).chunk_index ≡ some chunk
        → (s' : S) → IsGood s'
        → Loads io size s' chunk (f chunk)
        → ((j : ℕ) (other : List W)
            → j ≢ chunk
            → Loads io size x.store j other
            → Loads io size s' j other)
        → Represents io chunks size IsGood f
            (record { cache = set_slot k clean_slot x.cache; store = s' })
    unfolding set_slot
    written_back chunk e s' good now others =
        let below = slot_below x.cache k chunk e in
        let at = λ (j : ℕ). get_or-set x.cache.slots k j clean_slot empty_slot below in
        let same : (j : ℕ)
            → (slot_at (set_slot k clean_slot x.cache) j).chunk_index
              ≡ (slot_at x.cache j).chunk_index =
          λ j. ground (arith, at j) in
        record {
          good = good;
          room = r.room;
          within = rw (length-set x.cache.slots k clean_slot) r.within;
          mapped = r.mapped;
          chunk_of = λ ch j q. same j ∙ r.chunk_of ch j q;
          slot_with = λ ch j q. r.slot_with ch j (sym (same j) ∙ q);
          sized = r.sized;
          cached = λ ch j q. ground (arith, at j, r.cached ch j (sym (same j) ∙ q));
          clean = λ ch j q h. elim (ℕ_discrete ch chunk) [
            | yes p ↦ subst (λ c. Loads io size s' c (f c)) (sym p) now
            | no ne ↦
                others ch (f ch) ne (r.clean ch j (sym (same j) ∙ q) (ground (arith, at j, ne)))
          ];
          stored = λ ch h q. elim (ℕ_discrete ch chunk) [
            | yes p ↦ subst (λ c. Loads io size s' c (f c)) (sym p) now
            | no ne ↦ others ch (f ch) ne (r.stored ch h q)
          ];
        }

    written_back-IsAligned :
        (chunk : ℕ)
        → (slot_at x.cache k).chunk_index ≡ some chunk
        → (s' : S) → IsAligned x (record { cache = set_slot k clean_slot x.cache; store = s' })
    unfolding set_slot
    written_back-IsAligned chunk e s' =
        let below = slot_below x.cache k chunk e in
        let at = λ (j : ℕ). get_or-set x.cache.slots k j clean_slot empty_slot below in
        record {
          same_chunks = λ j. ground (arith, at j);
          same_touches = λ j. ground (arith, at j);
          same_length = length-set x.cache.slots k clean_slot;
          same_map = refl;
          same_capacity = refl;
          same_counter = refl;
        }

module _ {W S : Type 0} ⦃d : Double W⦄ {io : ChunkStore W S} {chunks : ℕ} {size : ℕ → ℕ}
    {IsGood : S → Type 0} {f : ℕ → List W} (s : IsStore io chunks size IsGood) where
  module _ {x : Cached W S} (k : ℕ) (r : Represents io chunks size IsGood f x) where
    -- A dirty slot's chunk is stored, with the value that it has.
    saved :
        (chunk : ℕ)
        → (slot_at x.cache k).chunk_index ≡ some chunk
        → (s' : S) × ((slot_at x.cache k).dirty ≡ true
            → flush_chunk io k (some chunk) x
              ≡ (ok tt, record { cache = set_slot k (clean_slot k r) x.cache; store = s' }))
          × IsGood s'
          × Loads io size s' chunk (f chunk)
          × ((j : ℕ) (other : List W)
              → j ≢ chunk
              → Loads io size x.store j other
              → Loads io size s' j other)
    unfolding flush_chunk
    saved chunk e =
        let below : chunk < chunks =
          rw (← r.mapped) (chunk_below x.cache chunk k (r.slot_with chunk k e)) in
        let value = r.cached chunk k e in
        let count = s.counts x.store chunk r.good below in
        let long : length (slot_at x.cache k).buffer ≡ size chunk =
          ap length value ∙ r.sized chunk below in
        let fits : (length (slot_at x.cache k).buffer == size chunk) ≡ true = ground arith in
        let (s', step, good, now, others) =
          s.stores x.store chunk (slot_at x.cache k).buffer r.good below long in
        (
          s',
          λ dirty. rw (dirty, count, fits, on_store, step, on_cache) refl,
          good,
          subst (Loads io size s' chunk) value now,
          others,
        )

    -- The chunk of the slot, if any, is in the store.
    abbrev pub IsSaved : Cached W S → Type 0
    IsSaved y =
        (chunk : ℕ)
        → (slot_at y.cache k).chunk_index ≡ some chunk
        → Loads io size y.store chunk (f chunk)

    pub flush_chunk-Represents :
        (o : Option ℕ)
        → (slot_at x.cache k).chunk_index ≡ o
        → (y : Cached W S) × (flush_chunk io k o x ≡ (ok tt, y))
          × Represents io chunks size IsGood f y
          × IsAligned x y
          × IsSaved y
          × ((c : ℕ) → Loads io size x.store c (f c) → Loads io size y.store c (f c))
    unfolding flush_chunk
    flush_chunk-Represents none e = (x, refl, r, IsAligned-refl x, λ ch q. cc, λ c h. h)
    flush_chunk-Represents (some chunk) e = elim (Bool-cases (slot_at x.cache k).dirty) [
      | inl dirty ↦
          let (s', step, good, now, others) = saved chunk e in
          (
            record { cache = set_slot k (clean_slot k r) x.cache; store = s' },
            step dirty,
            written_back k r chunk e s' good now others,
            written_back-IsAligned k r chunk e s',
            λ ch q.
                let same : ch ≡ chunk =
                  ground (arith, (written_back-IsAligned k r chunk e s').same_chunks k) in
                subst (λ c. Loads io size s' c (f c)) (sym same) now,
            λ c h. elim (ℕ_discrete c chunk) [
              | yes p ↦ subst (λ c. Loads io size s' c (f c)) (sym p) now
              | no ne ↦ others c (f c) ne h
            ],
          )
      | inr clean ↦ (x, rw clean refl, r, IsAligned-refl x, λ ch q. r.clean ch k q clean, λ c h. h)
    ]

  module _ {x : Cached W S} (k : ℕ) (r : Represents io chunks size IsGood f x)
      (below : k < length x.cache.slots) (safe : IsSaved k r x) where
    -- Slot `k` as `evictSlot` leaves it.
    abbrev pub free_slot : Slot W
    free_slot = record (slot_at x.cache k) { chunk_index = none; dirty = false; touch = 0 }

    -- The cache as `evictSlot` leaves it, where the slot had the chunk `o`.
    unfoldable pub free_cache : Option ℕ → ChunkCache W
    free_cache o =
        set_slot k free_slot
          (record x.cache { chunk_to_slot = unmap_chunk o x.cache.chunk_to_slot })

    at_slot :
        (j : ℕ)
        → get_or (set x.cache.slots k free_slot) j empty_slot
          ≡ (if j == k then free_slot else slot_at x.cache j)
    at_slot j = get_or-set x.cache.slots k j free_slot empty_slot below

    pub freed :
        (o : Option ℕ)
        → (slot_at x.cache k).chunk_index ≡ o
        → Represents io chunks size IsGood f (record { cache = free_cache o; store = x.store })
    unfolding set_slot unmap_chunk free_cache
    freed none e = record {
      good = r.good;
      room = r.room;
      within = rw (length-set x.cache.slots k free_slot) r.within;
      mapped = r.mapped;
      chunk_of = λ c j q. ground (arith, at_slot j, r.chunk_of c j q);
      slot_with = λ c j q. r.slot_with c j (ground (arith, at_slot j));
      sized = r.sized;
      cached = λ c j q. ground (arith, at_slot j, r.cached c j);
      clean = λ c j q h. r.clean c j (ground (arith, at_slot j)) (ground (arith, at_slot j));
      stored = r.stored;
    }
    freed (some chunk) e =
        let inside = chunk_below x.cache chunk k (r.slot_with chunk k e) in
        let at_map = λ (j : ℕ). get_or-set x.cache.chunk_to_slot chunk j none none inside in
        record {
          good = r.good;
          room = r.room;
          within = rw (length-set x.cache.slots k free_slot) r.within;
          mapped = length-set x.cache.chunk_to_slot chunk none ∙ r.mapped;
          chunk_of = λ c j q. ground (arith, at_slot j, at_map c, r.chunk_of c j);
          slot_with =
              λ c j q. ground (arith, at_slot j, at_map c, r.slot_with c j, r.slot_with chunk k e);
          sized = r.sized;
          cached = λ c j q. ground (arith, at_slot j, r.cached c j);
          clean = λ c j q h. r.clean c j (ground (arith, at_slot j)) (ground (arith, at_slot j));
          stored = λ c h q. elim (ℕ_discrete c chunk) [
            | yes p ↦ subst (λ c. Loads io size x.store c (f c)) (sym p) (safe chunk e)
            | no ne ↦ r.stored c h (ground (arith, at_map c))
          ];
        }

    pub freed-IsTaken :
        (o : Option ℕ) → IsTaken k x (record { cache = free_cache o; store = x.store })
    unfolding free_cache set_slot
    freed-IsTaken o = record {
      emptied = ground (arith, at_slot k);
      inside = rw (length-set x.cache.slots k free_slot) below;
      other_chunks = λ j ne. ground (arith, at_slot j);
      other_touches = λ j ne. ground (arith, at_slot j);
      same_counter = refl;
      same_capacity = refl;
    }
