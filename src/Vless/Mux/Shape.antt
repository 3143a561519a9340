-- ===== src/Vless/Mux/Shape.antt =====
-- What a frame of vless/mux/frame.rs looks like, where `parse_frame` returns one.
use skadi_core.Prelude.{
  ℕ, ◌+◌, ◌≤◌, ◌≡◌, refl, true, false, List, none, some, ltb, length, take, drop, get_elem?, arith,
}
use skadi_core.Prelude.Bytes.{be16}
use skadi_core.Prelude.Outcome.{ok, >>=-returns}
use skadi_core.Vless.Mux.{
  MuxMeta, MuxFrame, has_data, parse_meta_body, parse_chunk, parse_frame, max_meta_len, option_data,
  max_chunk_size,
}

pub frame_size : (input : List ℕ) (r : MuxFrame × ℕ) → parse_frame input ≡ ok r → (2 ≤ length input)
unfolding parse_frame
frame_size input r e = grind arith

pub frame_fits :
    (input : List ℕ) (r : MuxFrame × ℕ) (hi lo : ℕ)
    → get_elem? input 0 ≡ some hi
    → get_elem? input 1 ≡ some lo
    → parse_frame input ≡ ok r
    → (ltb max_meta_len (be16 hi lo) ≡ false) × (2 + be16 hi lo ≤ length input)
unfolding parse_frame
frame_fits input r hi lo h l e = grind arith

pub frame_parts :
    (input : List ℕ) (r : MuxFrame × ℕ) (hi lo : ℕ)
    → get_elem? input 0 ≡ some hi
    → get_elem? input 1 ≡ some lo
    → parse_frame input ≡ ok r
    → (meta : MuxMeta) × (parse_meta_body (take (be16 hi lo) (drop 2 input)) ≡ ok meta)
      × (parse_chunk input meta (2 + be16 hi lo) ≡ ok r)
unfolding parse_frame
frame_parts input r hi lo h l e =
    >>=-returns (parse_meta_body (take (be16 hi lo) (drop 2 input)))
      (λ meta. parse_chunk input meta (2 + be16 hi lo)) r
      (ground (arith, frame_size input r e, frame_fits input r hi lo h l e))

pub chunk_none :
    (input : List ℕ) (meta : MuxMeta) (at : ℕ) (r : MuxFrame × ℕ)
    → has_data meta ≡ false
    → parse_chunk input meta at ≡ ok r
    → r ≡ (record { meta = meta; payload = none }, at)
unfolding parse_chunk
chunk_none input meta at r d e = grind arith

pub chunk_size :
    (input : List ℕ) (meta : MuxMeta) (at : ℕ) (r : MuxFrame × ℕ)
    → has_data meta ≡ true
    → parse_chunk input meta at ≡ ok r
    → (at + 2 ≤ length input)
unfolding parse_chunk
chunk_size input meta at r d e = grind arith

pub chunk_parts :
    (input : List ℕ) (meta : MuxMeta) (at hi lo : ℕ) (r : MuxFrame × ℕ)
    → has_data meta ≡ true
    → get_elem? input (at + 0) ≡ some hi
    → get_elem? input (at + 1) ≡ some lo
    → parse_chunk input meta at ≡ ok r
    → (ltb max_chunk_size (be16 hi lo) ≡ false)
      × (at + 2 + be16 hi lo ≤ length input)
      × (r ≡ (
        record { meta = meta; payload = some (take (be16 hi lo) (drop (at + 2) input)) },
        at + 2 + be16 hi lo,
      ))
unfolding parse_chunk
chunk_parts input meta at hi lo r d h l e = (grind arith, grind arith, grind arith)

pub has_data-option_data : (meta : MuxMeta) → meta.option ≡ option_data → has_data meta ≡ true
unfolding has_data
has_data-option_data meta e = rw e refl
