-- ===== src/Vless/Mux.antt =====
-- crates/skadi-protocol/src/vless/mux/frame.rs: the frames of the multiplexing protocol.
pub mod Safety
pub mod Metadata
pub mod RoundTrip
pub mod Shape
pub mod Tests
use Prim.Native.Nat.{bit_and}
use skadi_core.Prelude.{
  ℕ, ◌+◌, ◌*◌, ◌/◌, ◌%◌, ◌&&◌, ◌||◌, not, Bool, true, false, List, [], ◌∷◌, ◌++◌, Option, none,
  some, ltb, leb, ◌==◌, if◌then◌else◌, length,
}
use skadi_core.Prelude.Outcome.{
  Outcome, ok, err, panic, ◌>>=◌, ◌>>◌, fail_if, byte_at, slice, slice_from,
}
use skadi_core.Prelude.Bytes.{be16, to_be16}
use skadi_core.Endpoint.{Endpoint}
use skadi_core.Vless.Request.{ParseError, parse_port_address, encode_port_address}

abbrev pub session_status_new : ℕ
session_status_new = 0x01

abbrev pub session_status_keep : ℕ
session_status_keep = 0x02

abbrev pub session_status_end : ℕ
session_status_end = 0x03

abbrev pub session_status_keep_alive : ℕ
session_status_keep_alive = 0x04

abbrev pub option_data : ℕ
option_data = 0x01

abbrev pub option_error : ℕ
option_error = 0x02

abbrev pub network_tcp : ℕ
network_tcp = 0x01

abbrev pub network_udp : ℕ
network_udp = 0x02

abbrev pub max_meta_len : ℕ
max_meta_len = 512

abbrev pub max_chunk_size : ℕ
max_chunk_size = 8 * 1024

abbrev pub xudp_session_id : ℕ
xudp_session_id = 0

abbrev pub global_id_len : ℕ
global_id_len = 8

-- `Address` holds the text of the inner error; here it holds the error.
pub data MuxError : Type 0 where
  too_short : MuxError
  meta_too_large : ℕ → MuxError
  chunk_too_large : ℕ → MuxError
  unknown_network : ℕ → MuxError
  unknown_status : ℕ → MuxError
  address : ParseError → MuxError

pub record MuxMeta : Type 0 where
  pub session_id : ℕ
  pub status : ℕ
  pub option : ℕ
  pub network : Option ℕ
  pub target : Option Endpoint
  pub global_id : Option (List ℕ)

-- `self.option & OPTION_DATA != 0`
pub has_data : MuxMeta → Bool
has_data meta = not (bit_and meta.option option_data == 0)

pub record MuxFrame : Type 0 where
  pub meta : MuxMeta
  pub payload : Option (List ℕ)

-- The condition of `let needs_target`; `body[offset]` is read only where there is one.
pub needs_target : List ℕ → ℕ → Outcome MuxError Bool
needs_target body status =
    if ltb 4 (length body)
    then (do
      first ← byte_at body 4
      ok (
          (status == session_status_new && (first == network_tcp || first == network_udp))
          || (status == session_status_keep && first == network_udp)))
    else ok false

-- `.map_err(|e| MuxError::Address(e.to_string()))`
abbrev pub map_address : {A : Type 0} → Outcome ParseError A → Outcome MuxError A
map_address (ok a) = ok a
map_address (err e) = err (address e)
map_address panic = panic

-- The last statement of `if needs_target { .. }`.
pub parse_global_id : List ℕ → ℕ → ℕ → ℕ → Outcome MuxError (Option (List ℕ))
parse_global_id body status network offset =
    if status == session_status_new
      && network == network_udp
      && leb (offset + global_id_len) (length body)
    then (do id ← slice body offset (offset + global_id_len); ok (some id))
    else ok none

-- The body of `if needs_target { .. }`, and the result.
pub parse_meta_target : List ℕ → ℕ → ℕ → ℕ → Outcome MuxError MuxMeta
parse_meta_target body session_id status option = do
  network ← byte_at body 4
  rest ← slice_from body 5
  (endpoint, consumed) ← map_address (parse_port_address rest)
  global_id ← parse_global_id body status network (5 + consumed)
  ok (record {
    session_id = session_id;
    status = status;
    option = option;
    network = some network;
    target = some endpoint;
    global_id = global_id;
  })

abbrev pub bare_meta : ℕ → ℕ → ℕ → MuxMeta
bare_meta session_id status option = record {
  session_id = session_id;
  status = status;
  option = option;
  network = none;
  target = none;
  global_id = none;
}

pub parse_meta_body : List ℕ → Outcome MuxError MuxMeta
parse_meta_body body = do
  fail_if (ltb (length body) 4) too_short
  hi ← byte_at body 0
  lo ← byte_at body 1
  status ← byte_at body 2
  option ← byte_at body 3
  wants ← needs_target body status
  if wants
      then parse_meta_target body (be16 hi lo) status option
      else ok (bare_meta (be16 hi lo) status option)

-- The arm of `encode_meta` for a new session.
encode_new : Option ℕ → Option Endpoint → Option (List ℕ) → List ℕ
encode_new (some network) (some target) (some id) =
    network ∷ (encode_port_address target ++ (if network == network_udp then id else []))
encode_new (some network) (some target) none = network ∷ encode_port_address target
encode_new _ _ _ = []

-- The arm of `encode_meta` for a session that goes on.
encode_keep : Option ℕ → Option Endpoint → List ℕ
encode_keep (some network) (some target) =
    if network == network_udp then network_udp ∷ encode_port_address target else []
encode_keep _ _ = []

-- The body that `encode_meta` puts behind its length.
pub meta_body : MuxMeta → List ℕ
unfolding encode_new encode_keep
meta_body meta =
    to_be16 meta.session_id
    ++ (meta.status
        ∷ meta.option
        ∷ (if meta.status == session_status_new
            then encode_new meta.network meta.target meta.global_id
            else if meta.status == session_status_keep
            then encode_keep meta.network meta.target
            else []))

pub encode_meta : MuxMeta → List ℕ
encode_meta meta = to_be16 (length (meta_body meta) % 65536) ++ meta_body meta

pub encode_data_frame : MuxMeta → List ℕ → Outcome MuxError (List ℕ)
encode_data_frame meta payload = do
  fail_if (ltb max_chunk_size (length payload)) (chunk_too_large (length payload))
  ok (encode_meta meta ++ (to_be16 (length payload % 65536) ++ payload))

pub encode_end_frame : ℕ → Bool → List ℕ
encode_end_frame session_id with_error =
    encode_meta (bare_meta session_id session_status_end (if with_error then option_error else 0))

-- `let payload = if meta.has_data() { .. }`: the chunk behind the metadata, which ends at `meta_end`.
pub parse_chunk : List ℕ → MuxMeta → ℕ → Outcome MuxError (MuxFrame × ℕ)
parse_chunk input meta meta_end =
    if has_data meta
    then (do
      fail_if (ltb (length input) (meta_end + 2)) too_short
      hi ← byte_at input meta_end
      lo ← byte_at input (meta_end + 1)
      let chunk_len = be16 hi lo
      let consumed = meta_end + 2
      fail_if (ltb max_chunk_size chunk_len) (chunk_too_large chunk_len)
      fail_if (ltb (length input) (consumed + chunk_len)) too_short
      chunk ← slice input consumed (consumed + chunk_len)
      ok (record { meta = meta; payload = some chunk }, consumed + chunk_len))
    else ok (record { meta = meta; payload = none }, meta_end)

pub parse_frame : List ℕ → Outcome MuxError (MuxFrame × ℕ)
parse_frame input = do
  fail_if (ltb (length input) 2) too_short
  hi ← byte_at input 0
  lo ← byte_at input 1
  let meta_len = be16 hi lo
  fail_if (ltb max_meta_len meta_len) (meta_too_large meta_len)
  let meta_end = 2 + meta_len
  fail_if (ltb (length input) meta_end) too_short
  body ← slice input 2 meta_end
  meta ← parse_meta_body body
  parse_chunk input meta meta_end
