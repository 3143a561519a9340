-- ===== src/Vless/Mux/RoundTrip.antt =====
-- `parse_frame` after `encode_data_frame`, `encode_meta` and `encode_end_frame`.
use mathlib.Core.List.{append_assoc}
use skadi_core.Prelude.{
  ℕ, ◌+◌, ◌/◌, ◌%◌, ◌≤◌, ◌≡◌, refl, ap, ◌∙◌, Bool, true, false, List, ◌++◌, none, some, arith,
  length, length-append, drop, take_front, drop_behind, get_elem?_behind, get_elem?, if◌then◌else◌,
}
use skadi_core.Prelude.Bytes.{be16, to_be16, IsU16}
use skadi_core.Prelude.Outcome.{ok}
use skadi_core.Vless.Mux.{
  MuxMeta, parse_meta_body, meta_body, encode_meta, encode_data_frame, has_data, bare_meta,
  session_status_end, option_error, encode_end_frame, parse_chunk, parse_frame, max_chunk_size,
}
use skadi_core.Vless.Mux.Metadata.{IsCanonical, meta_lem, meta_body_short}

frame_step :
    (body rest : List ℕ) (meta : MuxMeta)
    → length body ≤ 512
    → parse_meta_body body ≡ ok meta
    → let input = to_be16 (length body % 65536) ++ (body ++ rest) in
      parse_frame input ≡ parse_chunk input meta (2 + length body)
unfolding parse_frame
frame_step body rest meta h e =
    ground (arith, length-append body rest, take_front (length body) body rest refl)

chunk_at :
    (input payload rest : List ℕ) (n hi lo : ℕ) (meta : MuxMeta)
    → has_data meta ≡ true
    → length payload ≤ 8192
    → get_elem? input (n + 0) ≡ some hi
    → get_elem? input (n + 1) ≡ some lo
    → be16 hi lo ≡ length payload
    → drop (n + 2) input ≡ payload ++ rest
    → length input ≡ n + 2 + (length payload + length rest)
    → parse_chunk input meta n
      ≡ ok (record { meta = meta; payload = some payload }, n + 2 + length payload)
unfolding parse_chunk
chunk_at input payload rest n hi lo meta d h a b c e f =
    ground (arith, take_front (length payload) payload rest refl)

chunk_step :
    (front payload rest : List ℕ) (n : ℕ) (meta : MuxMeta)
    → length front ≡ n
    → has_data meta ≡ true
    → length payload ≤ 8192
    → parse_chunk (front ++ (to_be16 (length payload % 65536) ++ (payload ++ rest))) meta n
      ≡ ok (record { meta = meta; payload = some payload }, n + 2 + length payload)
chunk_step front payload rest n meta e d h =
    let more = to_be16 (length payload % 65536) ++ (payload ++ rest) in
    chunk_at (front ++ more) payload rest n (length payload % 65536 / 256 % 256)
      (length payload % 65536 % 256) meta d h (get_elem?_behind n 0 front more e)
      (get_elem?_behind n 1 front more e) (omega arith) (drop_behind n 2 front more e)
      (ground (arith, length-append front more, length-append payload rest))

-- A frame for metadata that the format can carry, cut into its length, its body and the chunk, parses to
-- that metadata and payload and ends where the encoder stopped, whatever bytes follow.
pub parse_frame-encode :
    (meta : MuxMeta) (payload rest : List ℕ)
    → IsCanonical meta
    → has_data meta ≡ true
    → length payload ≤ max_chunk_size
    → (frame : List ℕ) × (encode_data_frame meta payload ≡ ok frame)
      × (parse_frame (frame ++ rest)
          ≡ ok (record { meta = meta; payload = some payload }, length frame))
unfolding encode_data_frame encode_meta
parse_frame-encode meta payload rest c d h = (
  encode_meta meta ++ (to_be16 (length payload % 65536) ++ payload),
  ground arith,
  rw append_assoc (
      frame_step body more meta short parsed
      ∙ chunk_step (to_be16 (length body % 65536) ++ body) payload rest (2 + length body) meta
          (omega arith) d h
      ∙ ap (λ n. ok (record { meta = meta; payload = some payload }, n)) total),
)
  where
    body : List ℕ
    body = meta_body meta

    more : List ℕ
    more = to_be16 (length payload % 65536) ++ (payload ++ rest)

    parsed : parse_meta_body body ≡ ok meta
    parsed = meta_lem _ _ _ _ _ _ c.session c.carries

    short : length body ≤ 512
    short = meta_body_short _ _ _ _ _ _ c.carries

    total :
        2 + length body + 2 + length payload
        ≡ length (encode_meta meta ++ (to_be16 (length payload % 65536) ++ payload))
    total = ground (arith, length-append body (to_be16 (length payload % 65536) ++ payload))

-- Metadata that the format can carry and that announces no data parses, without a payload, to
-- itself and its length, whatever bytes follow.
pub parse_frame-encode_meta :
    (meta : MuxMeta) (rest : List ℕ)
    → IsCanonical meta
    → has_data meta ≡ false
    → parse_frame (encode_meta meta ++ rest)
      ≡ ok (record { meta = meta; payload = none }, length (encode_meta meta))
unfolding encode_meta
parse_frame-encode_meta meta rest c d =
    rw append_assoc (frame_step body rest meta short parsed ∙ unfold parse_chunk in ground arith)
  where
    body : List ℕ
    body = meta_body meta

    parsed : parse_meta_body body ≡ ok meta
    parsed = meta_lem _ _ _ _ _ _ c.session c.carries

    short : length body ≤ 512
    short = meta_body_short _ _ _ _ _ _ c.carries

-- The frame that ends a session, with or without the error flag, parses in its 6 bytes to that session and
-- that flag, whatever bytes follow.
pub parse_frame-encode_end_frame :
    (session_id : ℕ) (with_error : Bool) (rest : List ℕ)
    → IsU16 session_id
    → parse_frame (encode_end_frame session_id with_error ++ rest)
      ≡ ok (
        record {
          meta = bare_meta session_id session_status_end (if with_error then option_error else 0);
          payload = none;
        },
        6,
      )
unfolding encode_end_frame has_data encode_meta meta_body
parse_frame-encode_end_frame session_id true rest u =
    parse_frame-encode_meta (bare_meta session_id session_status_end option_error) rest
      (record { session = u; carries = tt }) refl
parse_frame-encode_end_frame session_id false rest u =
    parse_frame-encode_meta (bare_meta session_id session_status_end 0) rest
      (record { session = u; carries = tt }) refl
