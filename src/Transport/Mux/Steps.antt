-- ===== src/Transport/Mux/Steps.antt =====
-- crates/skadi-transport/src/mux.rs: what a frame of the client does, what a reader task does, and the end
-- of the relay.
use skadi_core.Prelude.{
  ℕ, ◌==◌, ◌&&◌, Bool, false, List, [], ◌∷◌, Option, none, some, if◌then◌else◌,
}
use skadi_core.Prelude.Outcome.{ok, err}
use skadi_core.Endpoint.{Endpoint}
use skadi_core.Vless.Mux.{
  MuxMeta, MuxFrame, session_status_new, session_status_keep, session_status_end,
  session_status_keep_alive, network_tcp, network_udp, xudp_session_id,
}
use skadi_core.Transport.Mux.{
  MuxSession, Net, without_target, unknown_status, Relay, Relayed, lookup_session, remove_session,
  stop, reader_of, with_sessions, with_running, write_end, write_mux_data, open_tcp_session,
  open_udp_session, forward_keep_frame,
}

abbrev pub is_network : ℕ → Option ℕ → Bool
is_network network none = false
is_network network (some n) = n == network

unfoldable pub is_xudp_frame : MuxMeta → Bool
is_xudp_frame meta = (meta.session_id == xudp_session_id) && is_network network_udp meta.network

-- `frame.meta.network.unwrap_or(NETWORK_TCP)`
abbrev pub network_or_tcp : Option ℕ → ℕ
network_or_tcp none = network_tcp
network_or_tcp (some network) = network

abbrev pub opens : Net → MuxFrame → Option Endpoint → Relay → Relayed
opens net frame none r = (err without_target, r)
opens net frame (some target) r =
    if network_or_tcp frame.meta.network == network_tcp
    then open_tcp_session net frame target r
    else if network_or_tcp frame.meta.network == network_udp
    then open_udp_session net frame target r
    else write_end net frame.meta.session_id r

abbrev pub ended : ℕ → Option MuxSession → Relay → Relay
ended id none r = with_sessions (remove_session r.sessions id) r
ended id (some session) r =
    with_running (stop r.running (reader_of session))
      (with_sessions (remove_session r.sessions id) r)

-- `handle_mux_frame`, for a frame that is not one of XUDP.
unfoldable pub handle_session_frame : Net → MuxFrame → Relay → Relayed
handle_session_frame net frame r =
    if frame.meta.status == session_status_new
    then opens net frame frame.meta.target r
    else if frame.meta.status == session_status_keep
    then forward_keep_frame net frame r
    else if frame.meta.status == session_status_end
    then (ok tt, ended frame.meta.session_id (lookup_session r.sessions frame.meta.session_id) r)
    else if frame.meta.status == session_status_keep_alive
    then (ok tt, r)
    else (err (unknown_status frame.meta.status), r)

-- One pass of a reader's loop that got bytes.
unfoldable pub reader_data : Net → ℕ → List ℕ → Relay → Relayed
reader_data net id bytes r = write_mux_data net id session_status_keep none bytes r

-- Behind the loop of a reader the entry of its identifier goes, whatever it is by then.
unfoldable pub reader_gone : ℕ → ℕ → Relay → Relay
reader_gone id task r =
    with_running (stop r.running task) (with_sessions (remove_session r.sessions id) r)

-- A reader that has seen the end of its socket says so first; one that met an error does not.
unfoldable pub reader_ends : Net → ℕ → ℕ → Relay → Relay
reader_ends net id task r = reader_gone id task (write_end net id r).1

-- Behind the loop: every session of the table is aborted.
unfoldable pub abort_all : List (ℕ × MuxSession) → List ℕ → List ℕ
abort_all [] running = running
abort_all (s ∷ sessions) running = abort_all sessions (stop running (reader_of s.1))

unfoldable pub close : Relay → Relay
close r = with_running (abort_all r.sessions r.running) (with_sessions [] r)
