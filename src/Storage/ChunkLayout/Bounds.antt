-- ===== src/Storage/ChunkLayout/Bounds.antt =====
-- The chunks of a layout cover the states, and no reference leaves its chunk.
use native.Mathlib.Nat.{
  mul-div-le, lt-mul-div-succ, div-eq_of_lt, div-add-mod', mod-lt, div-lt_iff_lt-mul,
}
use tmfqsfullstate.Prelude.{
  ℕ, zero, suc, ◌+◌, ◌-◌, ◌*◌, ◌/◌, ◌%◌, ◌^◌, ◌≤◌, ◌<◌, min, ◌≡◌, ap, sym, ◌∙◌, arith, ◌==◌,
  if◌then◌else◌,
}
use tmfqsfullstate.Core.Action.{ok}
use tmfqsfullstate.Storage.ChunkLayout.{
  ChunkLayout, make_chunk_layout, chunk_elems, chunk_elem_count, chunk_begin_state,
  chunk_state_begin, state_ref,
}

-- The exact numbers of a layout for which nothing wraps.
pub record IsExact (l : ChunkLayout) : Type 0 where
  pub width_pos : 0 < l.states_per_chunk
  pub small : l.total_states + l.states_per_chunk ≤ 2 ^ 62
  pub elems : l.total_elems ≡ l.total_states * 2
  pub width : l.elems_per_chunk ≡ l.states_per_chunk * 2
  pub covered : l.total_states ≤ l.chunk_count * l.states_per_chunk
  pub tight : (c : ℕ) → c < l.chunk_count → c * l.states_per_chunk < l.total_states

-- rounding a division up
ceil_div_bounds :
    (n w : ℕ) → 0 < w → (n ≤ (n + w - 1) / w * w) × ((c : ℕ) → c < (n + w - 1) / w → c * w < n)
ceil_div_bounds n w h =
    let q = (n + w - 1) / w in
    let lo : w * q ≤ n + w - 1 = mul-div-le (n + w - 1) w in
    let hi : n + w - 1 < w * (q + 1) = lt-mul-div-succ (n + w - 1) h in
    (grind arith, λ c below. let step : suc c * w ≤ q * w = grind arith in omega arith)

unwrapped_count :
    (t e : ℕ)
    → 0 < e
    → t + e ≤ 2 ^ 63
    → (if t == 0 then 0 else (t + e + 2 ^ 64 - 1) % 2 ^ 64 / e) ≡ (t + e - 1) / e
unwrapped_count zero e pos h = sym (div-eq_of_lt (omega arith))
unwrapped_count (suc t) e pos h = ground (
  arith,
  ap (λ x. x / e) {x = (suc t + e + 2 ^ 64 - 1) % 2 ^ 64} {y = suc t + e - 1} (omega arith),
)

-- With no more than 2^62 states and chunk width together, the constructor's arithmetic does not
-- wrap: the chunks cover the states, and each chunk begins at a state.
pub make_chunk_layout-IsExact :
    (total width : ℕ) {l : ChunkLayout}
    → total + width ≤ 2 ^ 62
    → make_chunk_layout total width ≡ ok l
    → IsExact l × (l.total_states ≡ total) × (l.states_per_chunk ≡ width)
unfolding make_chunk_layout
make_chunk_layout-IsExact total width {l} h e =
    let pos : 0 < width = ground arith in
    let elems : total * 2 % 2 ^ 64 ≡ total * 2 = omega arith in
    let elems' : l.total_elems ≡ total * 2 = ground arith in
    let width' : l.elems_per_chunk ≡ width * 2 = ground arith in
    let states : l.total_states ≡ total = ground arith in
    let wide : l.states_per_chunk ≡ width = ground arith in
    let count : l.chunk_count ≡ (total * 2 + width * 2 - 1) / (width * 2) =
      let e₁ : total * 2 % 2 ^ 64 ≡ total * 2 = omega arith in
      let e₂ : width * 2 % 2 ^ 64 ≡ width * 2 = omega arith in
      let rounded = unwrapped_count (total * 2) (width * 2) (omega arith) (omega arith) in
      ground (arith, rounded) in
    let (covered, tight) = ceil_div_bounds (total * 2) (width * 2) (omega arith) in
    (
      record {
        width_pos = omega arith;
        small = omega arith;
        elems = omega arith;
        width = omega arith;
        covered = rw (count, states, wide) (omega arith);
        tight = λ c below. let t = tight c (omega arith) in rw (states, wide) (omega arith);
      },
      states,
      wide,
    )

module _ {l : ChunkLayout} (x : IsExact l) where
  -- The number of doubles of a chunk: the last chunk may be shorter.
  pub chunk_elems_lem :
      (c : ℕ)
      → c < l.chunk_count
      → chunk_elems l c
        ≡ min (l.states_per_chunk * 2) ((l.total_states - c * l.states_per_chunk) * 2)
  unfolding chunk_elems
  chunk_elems_lem c below =
      let t = x.tight c below in
      let e : c * l.elems_per_chunk ≡ c * l.states_per_chunk * 2 =
        ap (λ k. c * k) x.width ∙ grind arith in
      rw (e, x.width, x.elems) (omega arith)

  pub chunk_begin_state_lem :
      (c : ℕ) → c < l.chunk_count → chunk_begin_state l c ≡ c * l.states_per_chunk
  unfolding chunk_begin_state
  chunk_begin_state_lem c below = let t = x.tight c below in omega arith

  pub chunk_index-lt :
      (index : ℕ) → index < l.total_states → index / l.states_per_chunk < l.chunk_count
  chunk_index-lt index h = (div-lt_iff_lt-mul x.width_pos).1 (omega (arith, x.covered))

-- A state of a layout lies in the chunk that `stateRef` names: the chunk exists, both doubles of
-- the state are inside it, and the chunk's first state plus the offset is the state again. It is
-- assumed that states and chunk width together are at most 2^62.
pub state_ref_in_chunk :
    (total width index : ℕ) {l : ChunkLayout}
    → total + width ≤ 2 ^ 62
    → make_chunk_layout total width ≡ ok l
    → index < total
    → (elems first : ℕ) × (chunk_elem_count l (state_ref l index).chunk_index ≡ ok elems)
      × (chunk_state_begin l (state_ref l index).chunk_index ≡ ok first)
      × ((state_ref l index).elem_offset + 1 < elems)
      × (first * 2 + (state_ref l index).elem_offset ≡ index * 2)
unfolding chunk_elem_count chunk_state_begin state_ref
state_ref_in_chunk total width index {l} h made below =
    let (x, e, e') = make_chunk_layout-IsExact total width h made in
    let c = index / l.states_per_chunk in
    let inside : c < l.chunk_count = chunk_index-lt x index (omega arith) in
    let r : index % l.states_per_chunk < l.states_per_chunk = mod-lt index x.width_pos in
    let whole : c * l.states_per_chunk + index % l.states_per_chunk ≡ index =
      div-add-mod' index l.states_per_chunk in
    let size = chunk_elems_lem x c inside in
    let start = chunk_begin_state_lem x c inside in
    let small = x.small in
    let off : index % l.states_per_chunk * 2 % 2 ^ 64 ≡ index % l.states_per_chunk * 2 =
      omega arith in
    (
      chunk_elems l c,
      chunk_begin_state l c,
      ground arith,
      ground arith,
      rw off (omega arith),
      rw off (omega arith),
    )
