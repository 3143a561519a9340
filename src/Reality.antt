-- ===== src/Reality.antt =====
-- crates/skadi-transport/src/reality/hello_parser.rs: the parser of a TLS ClientHello. A loop is given as
-- many passes as the data has bytes; without one left it would panic.
pub mod Returns
pub mod Tests
use skadi_core.Prelude.{
  ℕ, zero, suc, ◌+◌, ◌&&◌, not, Bool, true, false, List, [], ◌∷◌, Option, none, some, ltb, leb,
  ◌==◌, if◌then◌else◌, length,
}
use skadi_core.Prelude.Bytes.{be16, is_utf8}
use skadi_core.Prelude.Outcome.{Outcome, ok, err, panic, ◌>>=◌, ◌>>◌, fail_if, byte_at, slice}

-- The errors made by `anyhow!`, by the field that is cut short.
pub data HelloError : Type 0 where
  short_buffer : HelloError
  short_version : HelloError
  short_random : HelloError
  short_session_id_len : HelloError
  short_session_id : HelloError
  short_cipher_suites_len : HelloError
  short_cipher_suites : HelloError
  short_compression_methods_len : HelloError
  short_compression_methods : HelloError
  short_extensions : HelloError

pub record ClientHelloInfo : Type 0 where
  pub session_id : List ℕ
  pub client_random : List ℕ
  pub public_key : Option (List ℕ)
  pub server_name : Option (List ℕ)

-- The loop of `parse_sni`.
pub sni_loop : List ℕ → ℕ → ℕ → ℕ → Outcome HelloError (Option (List ℕ))
sni_loop ext end zero offset = if leb (offset + 3) end then panic else ok none
sni_loop ext end (suc passes) offset =
    if leb (offset + 3) end
    then (do
      name_type ← byte_at ext offset
      hi ← byte_at ext (offset + 1)
      lo ← byte_at ext (offset + 2)
      let after = offset + 3 + be16 hi lo
      if ltb end after
          then ok none
          else if name_type == 0
          then (do
            name ← slice ext (offset + 3) after
            ok (if is_utf8 name then some name else none))
          else sni_loop ext end passes after)
    else ok none

pub parse_sni : List ℕ → Outcome HelloError (Option (List ℕ))
parse_sni ext = if ltb (length ext) 2 then ok none else (do
  hi ← byte_at ext 0
  lo ← byte_at ext 1
  let end = 2 + be16 hi lo
  if ltb (length ext) end then ok none else sni_loop ext end (length ext) 2)

-- The loop of `parse_key_share`.
pub key_share_loop : List ℕ → ℕ → ℕ → ℕ → Outcome HelloError (Option (List ℕ))
key_share_loop ext end zero offset = if leb (offset + 4) end then panic else ok none
key_share_loop ext end (suc passes) offset =
    if leb (offset + 4) end
    then (do
      group_hi ← byte_at ext offset
      group_lo ← byte_at ext (offset + 1)
      hi ← byte_at ext (offset + 2)
      lo ← byte_at ext (offset + 3)
      let key_len = be16 hi lo
      if ltb end (offset + 4 + key_len)
          then ok none
          else if be16 group_hi group_lo == 0x001d && key_len == 32
          then (do key ← slice ext (offset + 4) (offset + 4 + 32); ok (some key))
          else key_share_loop ext end passes (offset + 4 + key_len))
    else ok none

pub parse_key_share : List ℕ → Outcome HelloError (Option (List ℕ))
parse_key_share ext = if ltb (length ext) 2 then ok none else (do
  hi ← byte_at ext 0
  lo ← byte_at ext 1
  let end = 2 + be16 hi lo
  if ltb (length ext) end then ok none else key_share_loop ext end (length ext) 2)

abbrev pub Found : Type 0
Found = Option (List ℕ) × Option (List ℕ)

-- The two assignments to `server_name` and `public_key`.
pub read_extension : ℕ → List ℕ → Found → Outcome HelloError Found
read_extension ext_type ext (key, name) =
    if ext_type == 0x0000
    then (do new_name ← parse_sni ext; ok (key, new_name))
    else if ext_type == 0x0033
    then (do new_key ← parse_key_share ext; ok (new_key, name))
    else ok (key, name)

abbrev pub is_complete : Found → Bool
is_complete (some key, some name) = true
is_complete _ = false

-- The loop of `parse_extensions`.
pub extensions_loop : List ℕ → ℕ → ℕ → Found → Outcome HelloError Found
extensions_loop exts zero offset found = if leb (offset + 4) (length exts) then panic else ok found
extensions_loop exts (suc passes) offset found =
    if leb (offset + 4) (length exts)
    then (do
      type_hi ← byte_at exts offset
      type_lo ← byte_at exts (offset + 1)
      hi ← byte_at exts (offset + 2)
      lo ← byte_at exts (offset + 3)
      let after = offset + 4 + be16 hi lo
      if ltb (length exts) after then ok found else (do
        ext ← slice exts (offset + 4) after
        now ← read_extension (be16 type_hi type_lo) ext found
        if is_complete now then ok now else extensions_loop exts passes after now))
    else ok found

pub parse_extensions : List ℕ → Outcome HelloError Found
parse_extensions exts = extensions_loop exts (length exts) 0 (none, none)

-- The end of `parse_client_hello`, from the extensions on.
pub parse_tail : List ℕ → List ℕ → List ℕ → ℕ → Outcome HelloError (Option ClientHelloInfo)
parse_tail buf random session_id offset =
    if ltb (length buf) (offset + 2)
    then ok (
        some (record {
          session_id = session_id;
          client_random = random;
          public_key = none;
          server_name = none;
        }))
    else (do
      hi ← byte_at buf offset
      lo ← byte_at buf (offset + 1)
      let after = offset + 2 + be16 hi lo
      fail_if (ltb (length buf) after) short_extensions
      extensions ← slice buf (offset + 2) after
      (public_key, server_name) ← parse_extensions extensions
      ok (
          some (record {
            session_id = session_id;
            client_random = random;
            public_key = public_key;
            server_name = server_name;
          })))

-- The cipher suites and the compression methods are passed over.
pub parse_suites : List ℕ → List ℕ → List ℕ → ℕ → Outcome HelloError (Option ClientHelloInfo)
parse_suites buf random session_id offset = do
  fail_if (ltb (length buf) (offset + 2)) short_cipher_suites_len
  hi ← byte_at buf offset
  lo ← byte_at buf (offset + 1)
  let methods = offset + 2 + be16 hi lo
  fail_if (ltb (length buf) methods) short_cipher_suites
  fail_if (leb (length buf) methods) short_compression_methods_len
  methods_len ← byte_at buf methods
  let after = methods + 1 + methods_len
  fail_if (ltb (length buf) after) short_compression_methods
  parse_tail buf random session_id after

-- From the version on.
pub parse_body : List ℕ → Outcome HelloError (Option ClientHelloInfo)
parse_body buf = do
  fail_if (ltb (length buf) 11) short_version
  fail_if (ltb (length buf) 43) short_random
  random ← slice buf 11 43
  fail_if (leb (length buf) 43) short_session_id_len
  session_id_len ← byte_at buf 43
  fail_if (ltb (length buf) (44 + session_id_len)) short_session_id
  session_id ← slice buf 44 (44 + session_id_len)
  parse_suites buf random session_id (44 + session_id_len)

-- From the length of the record on.
pub parse_record : List ℕ → Outcome HelloError (Option ClientHelloInfo)
parse_record buf = do
  hi ← byte_at buf 3
  lo ← byte_at buf 4
  if ltb (length buf) (5 + be16 hi lo) then ok none else (do
    fail_if (ltb (length buf) 9) short_buffer
    handshake_type ← byte_at buf 5
    if not (handshake_type == 0x01) then ok none else parse_body buf)

pub parse_client_hello : List ℕ → Outcome HelloError (Option ClientHelloInfo)
parse_client_hello buf = if ltb (length buf) 5 then ok none else (do
  content_type ← byte_at buf 0
  if not (content_type == 0x16) then ok none else parse_record buf)
