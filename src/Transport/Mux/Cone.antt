-- ===== src/Transport/Mux/Cone.antt =====
-- crates/skadi-transport/src/mux.rs: the UDP socket of a connection that any target may be reached
-- through (XUDP), over the table of crates/skadi-transport/src/xudp.rs, and the relay as a whole.
use skadi_core.Prelude.{
  ℕ, suc, ◌+◌, ◌==◌, Bool, List, [], ◌∷◌, ◌++◌, Option, none, some, if◌then◌else◌, length,
}
use skadi_core.Prelude.Outcome.{Outcome, ok, err, panic}
use skadi_core.Endpoint.{Endpoint, SocketAddr, ip}
use skadi_core.Vless.Mux.{
  MuxFrame, session_status_new, session_status_keep, session_status_end, session_status_keep_alive,
  xudp_session_id,
}
use skadi_core.Transport.Xudp.{Entries, Acquired, acquire, detach, register_reader}
use skadi_core.Transport.Mux.{
  Net, RelayError, without_target, not_connected, not_sent, not_resolved, without_cone,
  unknown_status, Relay, Relayed, stop, with_running, write_mux_data, write_end,
}
use skadi_core.Transport.Mux.Steps.{is_xudp_frame, handle_session_frame, close}

pub record XudpCone : Type 0 where
  pub global_id : Option (List ℕ)
  pub socket : ℕ
  pub reader_task : Option ℕ

-- What the resolver and the sockets of XUDP answer, and the time.
pub record XudpNet : Type 0 where
  pub bind : Option ℕ
  pub resolve : Endpoint → Option SocketAddr
  pub accepts_to : ℕ → SocketAddr → List ℕ → Bool
  pub now : ℕ

-- The relay, its cone, and the table that all relays share.
pub record MuxState : Type 0 where
  pub relay : Relay
  pub cone : Option XudpCone
  pub entries : Entries

abbrev pub Muxed : Type 0
Muxed = Outcome RelayError (Unit {0}) × MuxState

abbrev pub stop_if : List ℕ → Option ℕ → List ℕ
stop_if running none = running
stop_if running (some task) = stop running task

abbrev pub opened_cone : Option (List ℕ) → ℕ → Option XudpCone
opened_cone id socket = some (record { global_id = id; socket = socket; reader_task = none })

-- `XudpManager::acquire`, and the cone around its socket.
abbrev pub acquired_cone : List ℕ → Acquired → Option (ℕ × Bool) → MuxState → Muxed
acquired_cone id a none s = (
  err not_connected,
  record {
    relay = with_running (stop_if s.relay.running a.aborted) s.relay;
    cone = none;
    entries = a.entries;
  },
)
acquired_cone id a (some (socket, hit)) s = (
  ok tt,
  record {
    relay = with_running (stop_if s.relay.running a.aborted) s.relay;
    cone = opened_cone (some id) socket;
    entries = a.entries;
  },
)

abbrev pub bound_cone : Option ℕ → MuxState → Muxed
bound_cone none s = (err not_connected, s)
bound_cone (some socket) s =
    (ok tt, record { relay = s.relay; cone = opened_cone none socket; entries = s.entries })

abbrev pub new_cone : XudpNet → Option (List ℕ) → MuxState → Muxed
new_cone net (some id) s = let a = acquire s.entries id net.bind in acquired_cone id a a.socket s
new_cone net none s = bound_cone net.bind s

-- A cone that is there takes the identifier of the frame, if it has one.
abbrev pub renamed : XudpCone → Option (List ℕ) → XudpCone
renamed cone none = cone
renamed cone (some id) = record {
  global_id = some id;
  socket = cone.socket;
  reader_task = cone.reader_task;
}

abbrev pub ensured : XudpNet → Option (List ℕ) → Option XudpCone → MuxState → Muxed
ensured net id (some cone) s =
    (ok tt, record { relay = s.relay; cone = some (renamed cone id); entries = s.entries })
ensured net id none s = new_cone net id s

unfoldable pub ensure_xudp_cone : XudpNet → Option (List ℕ) → MuxState → Muxed
ensure_xudp_cone net id s = ensured net id s.cone s

abbrev pub spawn_task : Relay → Relay
spawn_task r = record {
  sessions = r.sessions;
  running = r.spawned ∷ r.running;
  spawned = suc r.spawned;
  written = r.written;
  sent = r.sent;
  client_to_upstream = r.client_to_upstream;
}

abbrev pub registered_reader : Entries → Option (List ℕ) → ℕ → Entries
registered_reader entries none task = entries
registered_reader entries (some id) task = register_reader entries id task

abbrev pub started : Option XudpCone → MuxState → Muxed
started none s = (err without_cone, s)
started (some cone) s = elim cone.reader_task [
  | some task ↦ (ok tt, s)
  | none ↦ (
    ok tt,
    record {
      relay = spawn_task s.relay;
      cone = some (record {
        global_id = cone.global_id;
        socket = cone.socket;
        reader_task = some s.relay.spawned;
      });
      entries = registered_reader s.entries cone.global_id s.relay.spawned;
    },
  )
]

unfoldable pub start_xudp_reader_if_needed : MuxState → Muxed
start_xudp_reader_if_needed s = started s.cone s

abbrev pub sent_to : Relay → ℕ → List ℕ → Relay
sent_to r socket payload = record {
  sessions = r.sessions;
  running = r.running;
  spawned = r.spawned;
  written = r.written;
  sent = r.sent ++ ((socket, payload) ∷ []);
  client_to_upstream = r.client_to_upstream + length payload;
}

-- Behind the name resolution.
abbrev pub send_resolved : XudpNet → List ℕ → Option SocketAddr → Option XudpCone → MuxState → Muxed
send_resolved net payload none opened s = (err not_resolved, s)
send_resolved net payload (some addr) none s = (err without_cone, s)
send_resolved net payload (some addr) (some opened) s =
    if net.accepts_to opened.socket addr payload
    then (
      ok tt,
      record { relay = sent_to s.relay opened.socket payload; cone = s.cone; entries = s.entries },
    )
    else (err not_sent, s)

abbrev pub send_some : XudpNet → Option (List ℕ) → Endpoint → MuxState → Muxed
send_some net none target s = (ok tt, s)
send_some net (some []) target s = (ok tt, s)
send_some net (some (b ∷ bytes)) target s =
    send_resolved net (b ∷ bytes) (net.resolve target) s.cone s

unfoldable pub xudp_send : XudpNet → MuxFrame → Endpoint → MuxState → Muxed
xudp_send net frame target s = send_some net frame.payload target s

-- `?`: the next call, if the one before returned.
abbrev pub and_then : Muxed → (MuxState → Muxed) → Muxed
and_then (ok done, s) f = f s
and_then (err e, s) f = (err e, s)
and_then (panic, s) f = (panic, s)

abbrev pub xudp_frame_new : XudpNet → MuxFrame → Option Endpoint → MuxState → Muxed
xudp_frame_new net frame none s = (err without_target, s)
xudp_frame_new net frame (some target) s =
    and_then (and_then (ensure_xudp_cone net frame.meta.global_id s) (xudp_send net frame target))
      start_xudp_reader_if_needed

abbrev pub cone_for_keep : XudpNet → Option XudpCone → MuxState → Muxed
cone_for_keep net none s = ensure_xudp_cone net none s
cone_for_keep net (some cone) s = (ok tt, s)

abbrev pub xudp_keep : XudpNet → MuxFrame → Option Endpoint → MuxState → Muxed
xudp_keep net frame none s = (ok tt, s)
xudp_keep net frame (some target) s =
    and_then (and_then (cone_for_keep net s.cone s) (xudp_send net frame target))
      start_xudp_reader_if_needed

-- The reader that `XudpManager::detach` aborts is the one that the cone has, which is stopped before.
abbrev pub detached_cone : XudpNet → Option (List ℕ) → MuxState → MuxState
detached_cone net none s = s
detached_cone net (some id) s =
    let d = detach s.entries id net.now in
    record {
      relay = with_running (stop_if s.relay.running d.1) s.relay;
      cone = s.cone;
      entries = d.0;
    }

unfoldable pub drop_cone : XudpNet → Option XudpCone → MuxState → MuxState
drop_cone net none s = s
drop_cone net (some cone) s = detached_cone net cone.global_id (record {
  relay = with_running (stop_if s.relay.running cone.reader_task) s.relay;
  cone = none;
  entries = s.entries;
})

unfoldable pub handle_xudp_frame : XudpNet → MuxFrame → MuxState → Muxed
handle_xudp_frame net frame s =
    if frame.meta.status == session_status_new
    then xudp_frame_new net frame frame.meta.target s
    else if frame.meta.status == session_status_keep
    then xudp_keep net frame frame.meta.target s
    else if frame.meta.status == session_status_end
    then (ok tt, drop_cone net s.cone s)
    else if frame.meta.status == session_status_keep_alive
    then (ok tt, s)
    else (err (unknown_status frame.meta.status), s)

abbrev pub on_relay : Relayed → MuxState → Muxed
on_relay out s = (out.0, record { relay = out.1; cone = s.cone; entries = s.entries })

unfoldable pub handle_mux_frame : Net → XudpNet → MuxFrame → MuxState → Muxed
handle_mux_frame net xudp frame s =
    if is_xudp_frame frame.meta
    then handle_xudp_frame xudp frame s
    else on_relay (handle_session_frame net frame s.relay) s

-- A datagram that the reader of the cone passes on, with its source.
unfoldable pub xudp_data : Net → SocketAddr → List ℕ → MuxState → Muxed
xudp_data net source bytes s =
    on_relay
      (write_mux_data net xudp_session_id session_status_keep (some (ip source)) bytes s.relay) s

-- The end of that reader, which leaves the cone as it is.
unfoldable pub xudp_reader_ends : Net → ℕ → MuxState → MuxState
xudp_reader_ends net task s =
    let after = (write_end net xudp_session_id s.relay).1 in
    record {
      relay = with_running (stop after.running task) after;
      cone = s.cone;
      entries = s.entries;
    }

-- What `relay_vless_mux_with_limits` does behind its loop.
unfoldable pub close_all : XudpNet → MuxState → MuxState
close_all net s =
    drop_cone net s.cone (record { relay = close s.relay; cone = s.cone; entries = s.entries })
