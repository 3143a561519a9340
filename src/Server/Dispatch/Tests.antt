-- ===== src/Server/Dispatch/Tests.antt =====
-- Concrete connections of crates/skadi-server/src/lib.rs.
use skadi_core.Prelude.{ℕ, List, ◌++◌, ◌≡◌, ◌≢◌, refl, true, [], ◌∷◌, none, some, inl}
use skadi_core.Prelude.Bytes.{codes}
use skadi_core.Prelude.Outcome.{ok, panic}
use skadi_core.Stream.{Conn}
use skadi_core.Endpoint.{v4, IpAddr, octets_eq}
use skadi_core.Protocol.{EnabledProtocols, needs_sniffing, count}
use skadi_core.Vless.Handler.Tests.{client}
use skadi_core.Server.Dispatch.{
  Outside, connected, relayed, broke, finish_relay, closed, Served, classify_connect_error,
  contains_text, rep_connection_refused,
}
use skadi_core.Server.Dispatch.Handle.{read_prefix, choose_protocol}
use skadi_core.Server.Prefixed.{new, poll_all, pending}
use skadi_core.Server.Dispatch.Chosen.{ReadsAhead, choose_protocol-read_prefix}

abbrev outside : Outside
outside = record {
  connect_tcp = λ target. connected none;
  connect_udp = λ target. connected none;
  relay_tcp = relayed 10 20;
  relay_udp = relayed 1 2;
  relay_mux = relayed 3 4;
  relay_bind = relayed 5 6;
  relay_associate = relayed 7 8;
}

abbrev both : EnabledProtocols
both = record { has_socks5 = true; has_vless = true }

abbrev peer : IpAddr
peer = v4 (record { a = 203; b = 0; c = 113; d = 7 })

-- A connection whose first byte is 5, where either protocol may be spoken.
abbrev fresh : Conn
fresh = record { input = 5 ∷ 1 ∷ 0 ∷ []; writable = true; output = [] }

abbrev after_byte : Conn
after_byte = record { input = 1 ∷ 0 ∷ []; writable = true; output = [] }

byte_read : read_prefix (needs_sniffing both) fresh ≡ (ok (some 5), after_byte)
unfolding read_prefix needs_sniffing count
byte_read = refl

-- Read again with room for nothing, then for one byte, then for eight of which two are ready.
abbrev portions : List (ℕ × ℕ)
portions = (0, 5) ∷ (1, 5) ∷ (8, 2) ∷ []

choose_protocol-read_prefix_example :
    ReadsAhead both fresh after_byte (some 5)
    × (let (bytes, last) = poll_all (new after_byte (some 5)) portions in
        bytes ++ pending last ≡ 5 ∷ 1 ∷ 0 ∷ [])
    × (choose_protocol both (some 5) ≢ panic)
choose_protocol-read_prefix_example =
    choose_protocol-read_prefix both fresh after_byte (some 5) portions (inl refl) byte_read

-- A relay that ends by the idle timeout is a session that closed, another error one that failed.
abbrev idle : Served
idle = record { client = fresh; limiter = none; log = [] }

idle_closes :
    finish_relay
      (codes "vless")
      (broke (record { timed_out = true; text = codes "idle timeout" }))
      idle
    ≡ (ok tt, record { client = fresh; limiter = none; log = closed (codes "vless") 0 0 ∷ [] })
unfolding finish_relay octets_eq
idle_closes = refl

refused_code :
    classify_connect_error (codes "Connection refused (os error 111)") ≡ rep_connection_refused
unfolding classify_connect_error contains_text
refused_code = refl
