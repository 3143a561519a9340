-- ===== src/Transport/Mux.antt =====
-- crates/skadi-transport/src/mux.rs: the relay of a VLESS multiplexing connection: its table of TCP
-- and UDP sessions. A socket and a reader task are numbers; what the sockets answer is a
-- parameter, the record Net. The readers are tasks of their own: what a reader does is a step beside the
-- frames of the client.
pub mod Steps
pub mod Account
pub mod Cone
pub mod Sound
pub mod Isolated
pub mod Framed
pub mod Reader
mod Tests
use skadi_core.Prelude.{
  ℕ, suc, ◌+◌, ◌==◌, ◌&&◌, Bool, true, false, List, [], ◌∷◌, ◌++◌, Option, none, some,
  if◌then◌else◌, length,
}
use skadi_core.Prelude.Outcome.{Outcome, ok, err, panic}
use skadi_core.Endpoint.{Endpoint}
use skadi_core.Vless.Mux.{
  MuxMeta, MuxFrame, MuxError, session_status_new, session_status_keep, session_status_end,
  session_status_keep_alive, network_tcp, network_udp, option_data, xudp_session_id,
  encode_data_frame, encode_end_frame,
}

-- A session: its socket, and the task that reads from it.
pub data MuxSession : Type 0 where
  tcp udp : ℕ → ℕ → MuxSession

pub record Net : Type 0 where
  pub connect_tcp : Endpoint → Option ℕ
  pub connect_udp : Endpoint → Option ℕ
  pub accepts : ℕ → List ℕ → Bool
  pub writable : Bool

pub data RelayError : Type 0 where
  without_target not_connected not_sent not_written not_resolved without_cone : RelayError
  unencodable : MuxError → RelayError
  unknown_status : ℕ → RelayError

-- The table, the tasks that run and the next number of one, the frames written to the client, what the
-- sockets were given, and the count of bytes for them.
pub record Relay : Type 0 where
  pub sessions : List (ℕ × MuxSession)
  pub running : List ℕ
  pub spawned : ℕ
  pub written : List (List ℕ)
  pub sent : List (ℕ × List ℕ)
  pub client_to_upstream : ℕ

abbrev pub Relayed : Type 0
Relayed = Outcome RelayError (Unit {0}) × Relay

-- Where `relay_vless_mux_with_limits` starts.
abbrev pub empty : Relay
empty = record {
  sessions = [];
  running = [];
  spawned = 0;
  written = [];
  sent = [];
  client_to_upstream = 0;
}

-- `HashMap::get`, `remove` and `insert`
unfoldable pub lookup_session : List (ℕ × MuxSession) → ℕ → Option MuxSession
lookup_session [] id = none
lookup_session (s ∷ sessions) id =
    let rest = lookup_session sessions id in if s.0 == id then some s.1 else rest

unfoldable pub remove_session : List (ℕ × MuxSession) → ℕ → List (ℕ × MuxSession)
remove_session [] id = []
remove_session (s ∷ sessions) id =
    let rest = remove_session sessions id in if s.0 == id then rest else s ∷ rest

unfoldable pub insert_session : List (ℕ × MuxSession) → ℕ → MuxSession → List (ℕ × MuxSession)
insert_session sessions id session = (id, session) ∷ remove_session sessions id

abbrev pub reader_of : MuxSession → ℕ
reader_of (tcp socket reader) = reader
reader_of (udp socket reader) = reader

abbrev pub socket_of : MuxSession → ℕ
socket_of (tcp socket reader) = socket
socket_of (udp socket reader) = socket

-- `JoinHandle::abort`
unfoldable pub stop : List ℕ → ℕ → List ℕ
stop [] task = []
stop (t ∷ running) task = let rest = stop running task in if t == task then rest else t ∷ rest

abbrev pub with_sessions : List (ℕ × MuxSession) → Relay → Relay
with_sessions sessions r = record {
  sessions = sessions;
  running = r.running;
  spawned = r.spawned;
  written = r.written;
  sent = r.sent;
  client_to_upstream = r.client_to_upstream;
}

abbrev pub with_running : List ℕ → Relay → Relay
with_running running r = record {
  sessions = r.sessions;
  running = running;
  spawned = r.spawned;
  written = r.written;
  sent = r.sent;
  client_to_upstream = r.client_to_upstream;
}

-- `MuxWriter::write_frame`
unfoldable pub write_frame : Net → List ℕ → Relay → Relayed
write_frame net frame r =
    if net.writable
    then (
      ok tt,
      record {
        sessions = r.sessions;
        running = r.running;
        spawned = r.spawned;
        written = r.written ++ (frame ∷ []);
        sent = r.sent;
        client_to_upstream = r.client_to_upstream;
      },
    )
    else (err not_written, r)

unfoldable pub write_end : Net → ℕ → Relay → Relayed
write_end net id r = write_frame net (encode_end_frame id false) r

abbrev pub network_for : Option Endpoint → Option ℕ
network_for none = none
network_for (some target) = some network_udp

abbrev pub write_encoded : Net → Outcome MuxError (List ℕ) → Relay → Relayed
write_encoded net (ok frame) r = write_frame net frame r
write_encoded net (err e) r = (err (unencodable e), r)
write_encoded net panic r = (panic, r)

unfoldable pub write_mux_data : Net → ℕ → ℕ → Option Endpoint → List ℕ → Relay → Relayed
write_mux_data net id status target payload r =
    write_encoded net
      (encode_data_frame
        (record {
          session_id = id;
          status = status;
          option = option_data;
          network = network_for target;
          target = target;
          global_id = none;
        })
        payload)
      r

-- `upstream.write_all(payload).await?` or `send`, and the count.
unfoldable pub send : Net → ℕ → List ℕ → Relay → Relayed
send net socket payload r =
    if net.accepts socket payload
    then (
      ok tt,
      record {
        sessions = r.sessions;
        running = r.running;
        spawned = r.spawned;
        written = r.written;
        sent = r.sent ++ ((socket, payload) ∷ []);
        client_to_upstream = r.client_to_upstream + length payload;
      },
    )
    else (err not_sent, r)

-- `tokio::spawn` of the reader, and the entry in the table.
unfoldable pub spawn : (ℕ → MuxSession) → ℕ → Relay → Relay
spawn session id r = record {
  sessions = insert_session r.sessions id (session r.spawned);
  running = r.spawned ∷ r.running;
  spawned = suc r.spawned;
  written = r.written;
  sent = r.sent;
  client_to_upstream = r.client_to_upstream;
}

abbrev pub spawned_after : (ℕ → MuxSession) → ℕ → Relayed → Relayed
spawned_after session id (ok done, r) = (ok tt, spawn session id r)
spawned_after session id (err e, r) = (err e, r)
spawned_after session id (panic, r) = (panic, r)

-- `if let Some(payload) = &frame.payload`
abbrev pub send_tcp_payload : Net → ℕ → Option (List ℕ) → Relay → Relayed
send_tcp_payload net socket none r = (ok tt, r)
send_tcp_payload net socket (some payload) r = send net socket payload r

-- The same, for a payload that is not empty.
abbrev pub send_payload : Net → ℕ → Option (List ℕ) → Relay → Relayed
send_payload net socket none r = (ok tt, r)
send_payload net socket (some []) r = (ok tt, r)
send_payload net socket (some (b ∷ bytes)) r = send net socket (b ∷ bytes) r

abbrev pub opened_tcp : Net → MuxFrame → Option ℕ → Relay → Relayed
opened_tcp net frame none r = (err not_connected, r)
opened_tcp net frame (some socket) r =
    spawned_after (tcp socket) frame.meta.session_id (send_tcp_payload net socket frame.payload r)

abbrev pub opened_udp : Net → MuxFrame → Option ℕ → Relay → Relayed
opened_udp net frame none r = (err not_connected, r)
opened_udp net frame (some socket) r =
    spawned_after (udp socket) frame.meta.session_id (send_payload net socket frame.payload r)

unfoldable pub open_tcp_session : Net → MuxFrame → Endpoint → Relay → Relayed
open_tcp_session net frame target r = opened_tcp net frame (net.connect_tcp target) r

unfoldable pub open_udp_session : Net → MuxFrame → Endpoint → Relay → Relayed
open_udp_session net frame target r = opened_udp net frame (net.connect_udp target) r

abbrev pub forwarded : Net → MuxFrame → Option MuxSession → Relay → Relayed
forwarded net frame none r = write_end net frame.meta.session_id r
forwarded net frame (some session) r = send_payload net (socket_of session) frame.payload r

unfoldable pub forward_keep_frame : Net → MuxFrame → Relay → Relayed
forward_keep_frame net frame r =
    forwarded net frame (lookup_session r.sessions frame.meta.session_id) r
