-- ===== src/Storage/ChunkCache/Fill.antt =====
-- A free slot is filled with a chunk that has no slot.
use native.Mathlib.Decide.{ℕ_discrete}
use tmfqsfullstate.Prelude.{
  ℕ, ◌+◌, ◌%◌, ◌<◌, ◌≡◌, ◌≢◌, refl, sym, ◌∙◌, subst, false, List, none, some, arith, ◌==◌,
  if◌then◌else◌, length, get_or, set, get_or-set, get_or-set_self, set-set, length-set,
}
use tmfqsfullstate.Core.Action.{ok}
use tmfqsfullstate.Core.Amplitude.{Double}
use tmfqsfullstate.Core.StateSpace.{u64_mod}
use tmfqsfullstate.Storage.ChunkCache.{
  Slot, ChunkStore, Cached, slot_at, slot_of, empty_slot, set_slot, on_cache, on_store, fill_slot,
  touch_slot,
}
use tmfqsfullstate.Storage.ChunkCache.Represents.{Represents, IsStore, Loads}

module _ {W S : Type 0} ⦃d : Double W⦄ {io : ChunkStore W S} {chunks : ℕ} {size : ℕ → ℕ}
    {IsGood : S → Type 0} {f : ℕ → List W} (s : IsStore io chunks size IsGood) where
  module _ {x : Cached W S} (k chunk : ℕ) (r : Represents io chunks size IsGood f x)
      (below : k < length x.cache.slots) (unassigned : (slot_at x.cache k).chunk_index ≡ none)
      (exists : chunk < chunks) (missing : slot_of x.cache chunk ≡ none) where
    now : ℕ
    now = (x.cache.touch_counter + 1) % u64_mod

    full_slot : Slot W
    full_slot = record { chunk_index = some chunk; buffer = f chunk; dirty = false; touch = now }

    pub filled : Cached W S
    filled = record {
      cache = record x.cache {
        slots = set x.cache.slots k full_slot;
        chunk_to_slot = set x.cache.chunk_to_slot chunk (some k);
        touch_counter = now;
      };
      store = x.store;
    }

    self : (slot : Slot W) → get_or (set x.cache.slots k slot) k empty_slot ≡ slot
    self slot = get_or-set_self x.cache.slots k slot empty_slot below

    pub fill_slot-eq : fill_slot io chunk k x ≡ (ok k, filled)
    unfolding fill_slot filled full_slot now touch_slot set_slot
    fill_slot-eq =
        let count = s.counts x.store chunk r.good exists in
        let pos = s.occupied chunk exists in
        let loads = r.stored chunk exists missing in
        let nonzero : (size chunk == 0) ≡ false = ground arith in
        simp (on_cache, on_store, self, set-set, count, nonzero, loads)

    at : (j : ℕ) → slot_at filled.cache j ≡ (if j == k then full_slot else slot_at x.cache j)
    unfolding filled
    at j = get_or-set x.cache.slots k j full_slot empty_slot below

    pub at_chunk :
        (c : ℕ) → slot_of filled.cache c ≡ (if c == chunk then some k else slot_of x.cache c)
    unfolding filled
    at_chunk c = get_or-set x.cache.chunk_to_slot chunk c (some k) none (rw r.mapped exists)

    pub filled-Represents : Represents io chunks size IsGood f filled
    unfolding filled full_slot
    filled-Represents = record {
      good = r.good;
      room = r.room;
      within = rw (length-set x.cache.slots k full_slot) r.within;
      mapped = length-set x.cache.chunk_to_slot chunk (some k) ∙ r.mapped;
      chunk_of = λ c j q. ground (arith, at j, at_chunk c, r.chunk_of c j);
      slot_with = λ c j q. ground (arith, at j, at_chunk c, r.slot_with c j);
      sized = r.sized;
      cached = λ c j q. ground (arith, at j, r.cached c j);
      clean = λ c j q h. elim (ℕ_discrete j k) [
        | yes p ↦
            let same : c ≡ chunk = ground (arith, at j) in
            subst (λ c. Loads io size x.store c (f c)) (sym same) (r.stored chunk exists missing)
        | no ne ↦ r.clean c j (ground (arith, at j)) (ground (arith, at j))
      ];
      stored = λ c h q. r.stored c h (ground (arith, at_chunk c));
    }

    pub filled-touches :
        ((slot_at filled.cache k).touch ≡ (x.cache.touch_counter + 1) % u64_mod)
        × (filled.cache.touch_counter ≡ (x.cache.touch_counter + 1) % u64_mod)
        × ((j : ℕ)
            → j ≢ k
            → ((slot_at filled.cache j).touch ≡ (slot_at x.cache j).touch)
              × ((slot_at filled.cache j).chunk_index ≡ (slot_at x.cache j).chunk_index))
        × (filled.cache.capacity ≡ x.cache.capacity)
    unfolding filled full_slot now
    filled-touches =
        (ground (arith, at k), refl, λ j ne. (ground (arith, at j), ground (arith, at j)), refl)
