-- ===== src/Transport/Mux/Reader.antt =====
-- crates/skadi-transport/src/mux.rs: `read_mux_frame`, which reads a frame from the connection of the client.
use skadi_core.Prelude.{ℕ, List, [], Option, none, some, ltb, if◌then◌else◌, length, take, drop}
use skadi_core.Prelude.Bytes.{be16}
use skadi_core.Prelude.Outcome.{ok, byte_at}
use skadi_core.Stream.{Action, ◌>>=◌, ◌>>◌, lift, pure, fail_when, with_input, read_exact, map_err}
use skadi_core.Vless.Mux.{
  MuxMeta, MuxFrame, MuxError, meta_too_large, chunk_too_large, has_data, parse_meta_body,
  max_meta_len, max_chunk_size,
}

pub data ReadError : Type 0 where
  ended_within : ReadError
  invalid : MuxError → ReadError

-- A buffer of no bytes is not read.
abbrev pub read_chunk : ℕ → Action ReadError (List ℕ)
read_chunk n = if ltb 0 n then read_exact ended_within n else pure []

-- Behind the two bytes of the length of the chunk.
abbrev pub read_announced : List ℕ → Action ReadError (Option (List ℕ))
read_announced chunk_len_buf = lift (byte_at chunk_len_buf 0) >>= λ hi.
    lift (byte_at chunk_len_buf 1) >>= λ lo.
    fail_when (ltb max_chunk_size (be16 hi lo)) (invalid (chunk_too_large (be16 hi lo)))
    >> (read_chunk (be16 hi lo) >>= λ payload. pure (some payload))

abbrev pub read_payload : MuxMeta → Action ReadError (Option (List ℕ))
read_payload meta =
    if has_data meta then read_exact ended_within 2 >>= read_announced else pure none

-- Behind the two bytes of the length of the metadata.
abbrev pub read_behind : List ℕ → Action ReadError (Option MuxFrame)
read_behind len_buf = lift (byte_at len_buf 0) >>= λ hi. lift (byte_at len_buf 1) >>= λ lo.
    fail_when (ltb max_meta_len (be16 hi lo)) (invalid (meta_too_large (be16 hi lo)))
    >> (read_exact ended_within (be16 hi lo) >>= λ meta_body.
        lift (map_err invalid (parse_meta_body meta_body)) >>= λ meta.
        read_payload meta >>= λ payload. pure (some (record { meta = meta; payload = payload })))

-- The end of the stream in front of a frame, or within its length, is the end of the frames.
unfoldable pub read_mux_frame : Action ReadError (Option MuxFrame)
read_mux_frame c =
    if ltb (length c.input) 2
    then (ok none, with_input c [])
    else read_behind (take 2 c.input) (with_input c (drop 2 c.input))
