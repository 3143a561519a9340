-- ===== src/Transport/Mux/Tests.antt =====
-- Runs of the relay of mux.rs, and its theorems at concrete inputs.
use skadi_core.Prelude.{
  ℕ, ◌≡◌, refl, ◌==◌, [], ◌∷◌, none, some, true, false, List, ◌++◌, length, drop, arith,
}
use skadi_core.Prelude.Bytes.{codes, is_utf8}
use skadi_core.Endpoint.{domain}
use skadi_core.Vless.Mux.{
  MuxFrame, session_status_new, session_status_end, option_data, network_tcp, network_udp, MuxMeta,
  encode_data_frame, encode_end_frame, parse_frame,
}
use skadi_core.Prelude.Outcome.{ok}
use skadi_core.Stream.{Conn}
use skadi_core.Vless.Mux.RoundTrip.{parse_frame-encode}
use skadi_core.Vless.Mux.Shape.{has_data-option_data}
use skadi_core.Transport.Mux.Reader.{read_mux_frame}
use skadi_core.Transport.Mux.Framed.{read_mux_frame-parse_frame}
use skadi_core.Transport.Mux.{
  Net, tcp, empty, lookup_session, forward_keep_frame, write_end, open_tcp_session, send, spawn,
  insert_session, remove_session, write_frame,
}
use skadi_core.Transport.Mux.Steps.{handle_session_frame, reader_gone, reader_ends, is_xudp_frame}
use skadi_core.Transport.Mux.Account.{IsSound}
use skadi_core.Transport.Mux.Cone.{MuxState, XudpNet, handle_mux_frame}
use skadi_core.Transport.Mux.Sound.{start, frame, reader_done, MuxReaches-IsSound}
use skadi_core.Transport.Mux.Isolated.{handle_session_frame_isolated}

abbrev net : Net
net = record {
  connect_tcp = λ target. some 40;
  connect_udp = λ target. some 41;
  accepts = λ socket payload. true;
  writable = true;
}

abbrev xudp : XudpNet
xudp = record {
  bind = some 42;
  resolve = λ target. none;
  accepts_to = λ socket addr payload. true;
  now = 0;
}

abbrev tcp_new : ℕ → MuxFrame
tcp_new id = record {
  meta = record {
    session_id = id;
    status = session_status_new;
    option = option_data;
    network = some network_tcp;
    target = some (domain (codes "dns.google") 53);
    global_id = none;
  };
  payload = some (1 ∷ 2 ∷ 3 ∷ []);
}

abbrev bare : ℕ → ℕ → MuxFrame
bare id status = record {
  meta = record {
    session_id = id;
    status = status;
    option = 0;
    network = none;
    target = none;
    global_id = none;
  };
  payload = none;
}

abbrev fresh : MuxState
fresh = record { relay = empty; cone = none; entries = [] }

abbrev opened : MuxState
opened = (handle_mux_frame net xudp (tcp_new 5) fresh).1

abbrev ended_by_peer : MuxState
ended_by_peer = record {
  relay = reader_ends net 5 0 opened.relay;
  cone = opened.cone;
  entries = opened.entries;
}

ended_session_counted : IsSound ended_by_peer.relay
ended_session_counted =
    MuxReaches-IsSound (reader_done net 5 0 (frame net xudp (tcp_new 5) (start [])))

-- The session is there once it was opened, and gone once its reader is at the end.
opened_then_gone :
    (lookup_session opened.relay.sessions 5 ≡ some (tcp 40 0))
    × (opened.relay.sent ≡ (40, 1 ∷ 2 ∷ 3 ∷ []) ∷ [])
    × (lookup_session ended_by_peer.relay.sessions 5 ≡ none)
    × (ended_by_peer.relay.written ≡ encode_end_frame 5 false ∷ [])
unfolding lookup_session handle_mux_frame is_xudp_frame handle_session_frame open_tcp_session send
    spawn insert_session reader_gone reader_ends remove_session write_end write_frame
opened_then_gone = (refl, refl, refl, refl)

handle_session_frame_isolated_example :
    ((other : ℕ)
      → (5 == other) ≡ false
      → lookup_session
          (handle_session_frame net (bare 5 session_status_end) opened.relay).1.sessions
          other
        ≡ lookup_session opened.relay.sessions other)
    × (session_status_end ≡ session_status_end
        → (keep : MuxFrame) → keep.meta.session_id ≡ 5
        → forward_keep_frame net keep
            (handle_session_frame net (bare 5 session_status_end) opened.relay).1
          ≡ write_end net 5 (handle_session_frame net (bare 5 session_status_end) opened.relay).1)
handle_session_frame_isolated_example =
    handle_session_frame_isolated net (bare 5 session_status_end) opened.relay

abbrev dns : MuxMeta
dns = record {
  session_id = 0;
  status = session_status_new;
  option = option_data;
  network = some network_udp;
  target = some (domain (codes "dns.google") 53);
  global_id = some (1 ∷ 2 ∷ 3 ∷ 4 ∷ 5 ∷ 6 ∷ 7 ∷ 8 ∷ []);
}

abbrev from_client : List ℕ → Conn
from_client bytes = record { input = bytes; writable = true; output = [] }

-- A datagram of the client, which more bytes follow.
dns_parses :
    (frame : List ℕ) × (encode_data_frame dns (9 ∷ 9 ∷ []) ≡ ok frame)
    × (parse_frame (frame ++ (5 ∷ []))
        ≡ ok (record { meta = dns; payload = some (9 ∷ 9 ∷ []) }, length frame))
unfolding is_utf8
dns_parses =
    parse_frame-encode dns (9 ∷ 9 ∷ []) (5 ∷ [])
      (record {
        session = omega arith;
        carries = ((refl, omega arith, omega arith), omega arith, refl, refl, refl);
      })
      (has_data-option_data dns refl) (omega arith)

read_mux_frame-parse_frame_example :
    (frame : List ℕ) × (encode_data_frame dns (9 ∷ 9 ∷ []) ≡ ok frame)
    × (read_mux_frame (from_client (frame ++ (5 ∷ []))) ≡ (
      ok (some (record { meta = dns; payload = some (9 ∷ 9 ∷ []) })),
      from_client (drop (length frame) (frame ++ (5 ∷ []))),
    ))
read_mux_frame-parse_frame_example = (
  dns_parses.0,
  dns_parses.1,
  read_mux_frame-parse_frame (from_client (dns_parses.0 ++ (5 ∷ [])))
      (record { meta = dns; payload = some (9 ∷ 9 ∷ []) }) (length dns_parses.0) dns_parses.2,
)
