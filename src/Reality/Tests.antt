-- ===== src/Reality/Tests.antt =====
-- A run of reality/hello_parser.rs, and its theorem at a concrete input.
use skadi_core.Prelude.{ℕ, ◌≡◌, ◌≢◌, refl, List, [], ◌∷◌, none, some}
use skadi_core.Prelude.Outcome.{ok, panic}
use skadi_core.Reality.{sni_loop, parse_sni, parse_client_hello}
use skadi_core.Reality.Returns.{parse_client_hello-ne-panic}

server_name_run : parse_sni (0 ∷ 5 ∷ 0 ∷ 0 ∷ 2 ∷ b'a' ∷ b'b' ∷ []) ≡ ok (some (b'a' ∷ b'b' ∷ []))
unfolding parse_sni sni_loop skadi_core.Prelude.Bytes.is_utf8
server_name_run = refl

parse_client_hello-ne-panic_example : parse_client_hello (0x16 ∷ 3 ∷ 1 ∷ 0 ∷ 2 ∷ 1 ∷ 0 ∷ []) ≢ panic
parse_client_hello-ne-panic_example =
    parse_client_hello-ne-panic (0x16 ∷ 3 ∷ 1 ∷ 0 ∷ 2 ∷ 1 ∷ 0 ∷ [])
