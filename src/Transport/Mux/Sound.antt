-- ===== src/Transport/Mux/Sound.antt =====
-- What holds of the relay of mux.rs, its cone included, after any frames and any moves of its readers.
use skadi_core.Prelude.{
  ℕ, ◌≡◌, refl, inl, inr, ◌==◌, Bool, Bool-cases, List, [], ◌∷◌, Option, none, some, arith, ◌⊎◌,
}
use skadi_core.Prelude.Outcome.{ok, err, panic}
use skadi_core.Endpoint.{Endpoint, SocketAddr}
use skadi_core.Vless.Mux.{
  MuxFrame, session_status_new, session_status_keep, session_status_end, session_status_keep_alive,
  xudp_session_id,
}
use skadi_core.Transport.Xudp.{Entries, Acquired, acquire}
use skadi_core.Transport.Mux.{Net, Relay, empty, with_running, write_mux_data}
use skadi_core.Transport.Mux.Steps.{close, is_xudp_frame, reader_data, reader_gone, reader_ends}
use skadi_core.Transport.Mux.Account.{
  total-append, grow-AreSpawned, IsSound, session_frame-IsSound, encoded-IsSound, read-IsSound,
  ends-IsSound, end-IsSound, gone-IsSound,
}
use skadi_core.Transport.Mux.Cone.{
  XudpCone, XudpNet, spawn_task, MuxState, Muxed, acquired_cone, bound_cone, new_cone, ensured,
  ensure_xudp_cone, started, start_xudp_reader_if_needed, send_resolved, send_some, xudp_send,
  and_then, xudp_frame_new, cone_for_keep, xudp_keep, detached_cone, drop_cone, handle_xudp_frame,
  on_relay, handle_mux_frame, xudp_data, xudp_reader_ends, close_all,
}

abbrev Sound : MuxState → Type 0
Sound s = IsSound s.relay

-- What frames of the client, moves of the readers and the end of the relay, in any order, make of a fresh
-- relay beside any table of sockets.
pub data MuxReaches : MuxState → Type 0 where
  start :
      (entries : Entries) → MuxReaches (record { relay = empty; cone = none; entries = entries })
  frame :
      (net : Net) (xudp : XudpNet) (f : MuxFrame) {s : MuxState}
      → MuxReaches s
      → MuxReaches (handle_mux_frame net xudp f s).1
  reads :
      (net : Net) (id : ℕ) (bytes : List ℕ) {s : MuxState}
      → MuxReaches s
      → MuxReaches (on_relay (reader_data net id bytes s.relay) s).1
  reads_datagram :
      (net : Net) (source : SocketAddr) (bytes : List ℕ) {s : MuxState}
      → MuxReaches s
      → MuxReaches (xudp_data net source bytes s).1
  reader_done :
      (net : Net) (id task : ℕ) {s : MuxState}
      → MuxReaches s
      → MuxReaches
          (record { relay = reader_ends net id task s.relay; cone = s.cone; entries = s.entries })
  reader_fails :
      (id task : ℕ) {s : MuxState}
      → MuxReaches s
      → MuxReaches
          (record { relay = reader_gone id task s.relay; cone = s.cone; entries = s.entries })
  cone_reader_done :
      (net : Net) (task : ℕ) {s : MuxState}
      → MuxReaches s
      → MuxReaches (xudp_reader_ends net task s)
  closes : (xudp : XudpNet) {s : MuxState} → MuxReaches s → MuxReaches (close_all xudp s)

running-IsSound : (running : List ℕ) (r : Relay) → IsSound r → IsSound (with_running running r)
running-IsSound running r h = record { counted = h.counted; readers = h.readers }

acquired-Sound :
    (id : List ℕ) (a : Acquired) (socket : Option (ℕ × Bool)) (s : MuxState)
    → Sound s
    → Sound (acquired_cone id a socket s).1
acquired-Sound id a none s h = running-IsSound _ s.relay h
acquired-Sound id a (some (socket, hit)) s h = running-IsSound _ s.relay h

bound-Sound : (socket : Option ℕ) (s : MuxState) → Sound s → Sound (bound_cone socket s).1
bound-Sound none s h = h
bound-Sound (some socket) s h = h

new-Sound :
    (net : XudpNet) (id : Option (List ℕ)) (s : MuxState) → Sound s → Sound (new_cone net id s).1
new-Sound net (some id) s h = acquired-Sound id (acquire s.entries id net.bind) _ s h
new-Sound net none s h = bound-Sound net.bind s h

ensured-Sound :
    (net : XudpNet) (id : Option (List ℕ)) (cone : Option XudpCone) (s : MuxState)
    → Sound s
    → Sound (ensured net id cone s).1
ensured-Sound net id (some cone) s h = h
ensured-Sound net id none s h = new-Sound net id s h

ensure-Sound :
    (net : XudpNet) (id : Option (List ℕ)) (s : MuxState)
    → Sound s
    → Sound (ensure_xudp_cone net id s).1
unfolding ensure_xudp_cone
ensure-Sound net id s h = ensured-Sound net id s.cone s h

Option-cases : (task : Option ℕ) → (task ≡ none) ⊎ ((n : ℕ) × (task ≡ some n))
Option-cases none = inl refl
Option-cases (some n) = inr (n, refl)

spawned-IsSound : (r : Relay) → IsSound r → IsSound (spawn_task r)
spawned-IsSound r h = record {
  counted = h.counted;
  readers = grow-AreSpawned r.spawned r.sessions h.readers;
}

started-Sound : (cone : Option XudpCone) (s : MuxState) → Sound s → Sound (started cone s).1
started-Sound none s h = h
started-Sound (some cone) s h = elim (Option-cases cone.reader_task) [
  | inl e ↦ rw e (spawned-IsSound s.relay h)
  | inr (task, e) ↦ rw e h
]

start-Sound : (s : MuxState) → Sound s → Sound (start_xudp_reader_if_needed s).1
unfolding start_xudp_reader_if_needed
start-Sound s h = started-Sound s.cone s h

resolved-Sound :
    (net : XudpNet) (payload : List ℕ) (addr : Option SocketAddr) (cone : Option XudpCone)
    (s : MuxState)
    → Sound s
    → Sound (send_resolved net payload addr cone s).1
resolved-Sound net payload none opened s h = h
resolved-Sound net payload (some addr) none s h = h
resolved-Sound net payload (some addr) (some opened) s h =
    elim (Bool-cases (net.accepts_to opened.socket addr payload)) [
      | inl e ↦ rw e (record {
        counted =
            let k = h.counted in
            omega (arith, k, total-append s.relay.sent (opened.socket, payload));
        readers = h.readers;
      })
      | inr e ↦ rw e h
    ]

send-Sound :
    (net : XudpNet) (payload : Option (List ℕ)) (target : Endpoint) (s : MuxState)
    → Sound s
    → Sound (send_some net payload target s).1
send-Sound net none target s h = h
send-Sound net (some []) target s h = h
send-Sound net (some (b ∷ bytes)) target s h = resolved-Sound net (b ∷ bytes) _ s.cone s h

then-Sound :
    (out : Muxed) (f : MuxState → Muxed)
    → Sound out.1
    → ((s : MuxState) → Sound s → Sound (f s).1)
    → Sound (and_then out f).1
then-Sound (ok done, s) f h k = k s h
then-Sound (err e, s) f h k = h
then-Sound (panic, s) f h k = h

sends-Sound :
    (net : XudpNet) (f : MuxFrame) (target : Endpoint) (out : Muxed)
    → Sound out.1
    → Sound (and_then (and_then out (xudp_send net f target)) start_xudp_reader_if_needed).1
unfolding xudp_send
sends-Sound net f target out h =
    then-Sound _ _ (then-Sound out _ h λ s k. send-Sound net f.payload target s k)
      λ s k. start-Sound s k

keep-Sound :
    (net : XudpNet) (cone : Option XudpCone) (s : MuxState)
    → Sound s
    → Sound (cone_for_keep net cone s).1
keep-Sound net none s h = ensure-Sound net none s h
keep-Sound net (some cone) s h = h

detached_cone-Sound :
    (net : XudpNet) (id : Option (List ℕ)) (s : MuxState) → Sound s → Sound (detached_cone net id s)
detached_cone-Sound net none s h = h
detached_cone-Sound net (some id) s h = running-IsSound _ s.relay h

drop-Sound :
    (net : XudpNet) (cone : Option XudpCone) (s : MuxState) → Sound s → Sound (drop_cone net cone s)
unfolding drop_cone
drop-Sound net none s h = h
drop-Sound net (some cone) s h =
    detached_cone-Sound net cone.global_id _ (running-IsSound _ s.relay h)

new_frame-Sound :
    (net : XudpNet) (f : MuxFrame) (target : Option Endpoint) (s : MuxState)
    → Sound s
    → Sound (xudp_frame_new net f target s).1
new_frame-Sound net f none s h = h
new_frame-Sound net f (some target) s h =
    sends-Sound net f target _ (ensure-Sound net f.meta.global_id s h)

keep_frame-Sound :
    (net : XudpNet) (f : MuxFrame) (target : Option Endpoint) (s : MuxState)
    → Sound s
    → Sound (xudp_keep net f target s).1
keep_frame-Sound net f none s h = h
keep_frame-Sound net f (some target) s h = sends-Sound net f target _ (keep-Sound net s.cone s h)

xudp_frame-Sound :
    (net : XudpNet) (f : MuxFrame) (s : MuxState) → Sound s → Sound (handle_xudp_frame net f s).1
unfolding handle_xudp_frame
xudp_frame-Sound net f s h = elim (Bool-cases (f.meta.status == session_status_new)) [
  | inl a ↦ rw a (new_frame-Sound net f _ s h)
  | inr a ↦ rw a (elim (Bool-cases (f.meta.status == session_status_keep)) [
    | inl b ↦ rw b (keep_frame-Sound net f _ s h)
    | inr b ↦ rw b (elim (Bool-cases (f.meta.status == session_status_end)) [
      | inl c ↦ rw c (drop-Sound net s.cone s h)
      | inr c ↦ rw c (elim (Bool-cases (f.meta.status == session_status_keep_alive)) [
        | inl d ↦ rw d h
        | inr d ↦ rw d h
      ])
    ])
  ])
]

frame-Sound :
    (net : Net) (xudp : XudpNet) (f : MuxFrame) (s : MuxState)
    → Sound s
    → Sound (handle_mux_frame net xudp f s).1
unfolding handle_mux_frame
frame-Sound net xudp f s h = elim (Bool-cases (is_xudp_frame f.meta)) [
  | inl e ↦ rw e (xudp_frame-Sound xudp f s h)
  | inr e ↦ rw e (session_frame-IsSound net f s.relay h)
]

-- Whatever frames come, whatever the readers of the sessions and of the cone do, and whenever the relay
-- ends: the count for the upstream side is the total of what the log of its sockets holds, and no session
-- of the table names a reader with a number that is still to be given.
pub MuxReaches-IsSound : {s : MuxState} → MuxReaches s → IsSound s.relay
unfolding xudp_data write_mux_data close_all close xudp_reader_ends
MuxReaches-IsSound (start entries) = record { counted = refl; readers = tt }
MuxReaches-IsSound (frame net xudp f {s} r) = frame-Sound net xudp f s (MuxReaches-IsSound r)
MuxReaches-IsSound (reads net id bytes {s} r) =
    read-IsSound net id bytes s.relay (MuxReaches-IsSound r)
MuxReaches-IsSound (reads_datagram net source bytes {s} r) =
    encoded-IsSound net _ s.relay (MuxReaches-IsSound r)
MuxReaches-IsSound (reader_done net id task {s} r) =
    ends-IsSound net id task s.relay (MuxReaches-IsSound r)
MuxReaches-IsSound (reader_fails id task {s} r) =
    gone-IsSound id task s.relay (MuxReaches-IsSound r)
MuxReaches-IsSound (cone_reader_done net task {s} r) =
    running-IsSound _ _ (end-IsSound net xudp_session_id s.relay (MuxReaches-IsSound r))
MuxReaches-IsSound (closes xudp {s} r) =
    drop-Sound xudp s.cone _ (record { counted = (MuxReaches-IsSound r).counted; readers = tt })
