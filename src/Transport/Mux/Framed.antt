-- ===== src/Transport/Mux/Framed.antt =====
-- `read_mux_frame` of mux.rs against `parse_frame` of vless/mux/frame.rs.
use skadi_core.Prelude.{
  ℕ, zero, suc, ◌+◌, ◌≤◌, ◌≡◌, refl, ap, ◌∙◌, true, false, Bool-cases, inl, inr, List, [], ◌∷◌,
  Option, some, ltb, length, take, drop, get_elem?, get_elem?-some, get_elem?-take, get_elem?-drop,
  length-drop, drop-drop, arith, le→ltb,
}
use skadi_core.Prelude.Bytes.{be16}
use skadi_core.Prelude.Outcome.{ok}
use skadi_core.Stream.{Conn, with_input, resume, pure}
use skadi_core.Stream.Reads.{}
use skadi_core.Vless.Mux.{
  MuxMeta, MuxFrame, max_chunk_size, max_meta_len, has_data, parse_chunk, parse_frame,
  parse_meta_body,
}
use skadi_core.Vless.Mux.Shape.{
  frame_size, frame_fits, frame_parts, chunk_none, chunk_size, chunk_parts,
}
use skadi_core.Transport.Mux.Reader.{
  read_chunk, read_announced, read_payload, read_behind, read_mux_frame,
}

chunk-takes :
    (c : Conn) (n : ℕ)
    → n ≤ length c.input
    → read_chunk n c ≡ (ok (take n c.input), with_input c (drop n c.input))
chunk-takes c zero h = refl
chunk-takes c (suc n) h = ground arith

announced-takes :
    (buf : List ℕ) (c : Conn) (hi lo : ℕ)
    → get_elem? buf 0 ≡ some hi
    → get_elem? buf 1 ≡ some lo
    → ltb max_chunk_size (be16 hi lo) ≡ false
    → be16 hi lo ≤ length c.input
    → read_announced buf c
      ≡ (ok (some (take (be16 hi lo) c.input)), with_input c (drop (be16 hi lo) c.input))
announced-takes [] c hi lo f g small fits = cc
announced-takes (a ∷ []) c hi lo f g small fits = cc
announced-takes (a ∷ b ∷ buf) c hi lo f g small fits =
    let first : a ≡ hi = cc in
    let second : b ≡ lo = cc in
    rw (first, second, small)
      (ap (λ r. resume (λ payload. pure (some payload)) r.0 r.1) (chunk-takes c (be16 hi lo) fits))

payload_some :
    (c : Conn) (meta : MuxMeta) (hi lo : ℕ)
    → has_data meta ≡ true
    → get_elem? c.input 0 ≡ some hi
    → get_elem? c.input 1 ≡ some lo
    → ltb max_chunk_size (be16 hi lo) ≡ false
    → 2 + be16 hi lo ≤ length c.input
    → read_payload meta c ≡ (
      ok (some (take (be16 hi lo) (drop 2 c.input))),
      with_input c (drop (be16 hi lo) (drop 2 c.input)),
    )
payload_some c meta hi lo d f g small fits =
    rw (d, le→ltb (length c.input) 2 (omega arith))
      (announced-takes (take 2 c.input) (with_input c (drop 2 c.input)) hi lo
        (get_elem?-take 0 2 c.input (omega arith) ∙ f)
        (get_elem?-take 1 2 c.input (omega arith) ∙ g) small (omega (arith, length-drop 2 c.input)))

payload-takes :
    (c : Conn) (meta : MuxMeta) (at : ℕ) (r : MuxFrame × ℕ)
    → parse_chunk c.input meta at ≡ ok r
    → at ≤ length c.input
    → (read_payload meta (with_input c (drop at c.input))
        ≡ (ok r.0.payload, with_input c (drop r.1 c.input)))
      × (r.0.meta ≡ meta)
payload-takes c meta at r e h = elim (Bool-cases (has_data meta)) [
  | inl d ↦
      let two = chunk_size c.input meta at r d e in
      let (hi, f) = get_elem?-some c.input (at + 0) (omega arith) in
      let (lo, g) = get_elem?-some c.input (at + 1) (omega arith) in
      let (small, fits, is) = chunk_parts c.input meta at hi lo r d f g e in
      (
        payload_some (with_input c (drop at c.input)) meta hi lo d (get_elem?-drop 0 at c.input ∙ f)
              (get_elem?-drop 1 at c.input ∙ g) small (omega (arith, length-drop at c.input))
            ∙ rw (is, drop-drop 2 at c.input, drop-drop (be16 hi lo) (at + 2) c.input) refl,
        ap (λ x. x.0.meta) is,
      )
  | inr d ↦ let is = chunk_none c.input meta at r d e in (rw (d, is) refl, ap (λ x. x.0.meta) is)
]

behind-takes :
    (buf : List ℕ) (c : Conn) (hi lo : ℕ) (meta : MuxMeta) (payload : Option (List ℕ))
    (after : Conn)
    → get_elem? buf 0 ≡ some hi
    → get_elem? buf 1 ≡ some lo
    → ltb max_meta_len (be16 hi lo) ≡ false
    → be16 hi lo ≤ length c.input
    → parse_meta_body (take (be16 hi lo) c.input) ≡ ok meta
    → read_payload meta (with_input c (drop (be16 hi lo) c.input)) ≡ (ok payload, after)
    → read_behind buf c ≡ (ok (some (record { meta = meta; payload = payload })), after)
behind-takes [] c hi lo meta payload after f g small fits m p = cc
behind-takes (a ∷ []) c hi lo meta payload after f g small fits m p = cc
behind-takes (a ∷ b ∷ buf) c hi lo meta payload after f g small fits m p =
    let first : a ≡ hi = cc in
    let second : b ≡ lo = cc in
    rw (first, second, small, le→ltb (length c.input) (be16 hi lo) fits, m)
      (ap (λ r. resume (λ payload. pure (some (record { meta = meta; payload = payload }))) r.0 r.1)
        p)

-- Where `parse_frame` finds a frame at the front of the stream, `read_mux_frame` reads that frame and not a
-- byte more.
pub read_mux_frame-parse_frame :
    (c : Conn) (f : MuxFrame) (n : ℕ)
    → parse_frame c.input ≡ ok (f, n)
    → read_mux_frame c ≡ (ok (some f), with_input c (drop n c.input))
unfolding read_mux_frame
read_mux_frame-parse_frame c f n e =
    let two = frame_size c.input (f, n) e in
    let (hi, h) = get_elem?-some c.input 0 (omega arith) in
    let (lo, l) = get_elem?-some c.input 1 (omega arith) in
    let (small, fits) = frame_fits c.input (f, n) hi lo h l e in
    let (meta, m, chunk) = frame_parts c.input (f, n) hi lo h l e in
    let (payload, same) = payload-takes c meta (2 + be16 hi lo) (f, n) chunk fits in
    rw (le→ltb (length c.input) 2 two) (
      behind-takes (take 2 c.input) (with_input c (drop 2 c.input)) hi lo meta f.payload
        (with_input c (drop n c.input)) (get_elem?-take 0 2 c.input (omega arith) ∙ h)
        (get_elem?-take 1 2 c.input (omega arith) ∙ l) small (omega (arith, length-drop 2 c.input))
        m (rw (drop-drop (be16 hi lo) 2 c.input) payload)
      ∙ rw same refl)
