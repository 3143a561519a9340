-- ===== src/Transport/Mux/Account.antt =====
-- What holds of the relay of mux.rs after any frames and any moves of its readers, and what a frame of one
-- session does to another.
use skadi_core.Prelude.{
  ℕ, suc, ◌+◌, ◌<◌, ◌≡◌, refl, inl, inr, ◌==◌, false, Bool-cases, List, [], ◌∷◌, ◌++◌, Option, none,
  some, length, arith, All,
}
use skadi_core.Prelude.Outcome.{Outcome, ok, err, panic}
use skadi_core.Endpoint.{Endpoint}
use skadi_core.Vless.Mux.{
  MuxFrame, MuxError, encode_end_frame, session_status_new, session_status_keep, session_status_end,
  session_status_keep_alive, network_tcp, network_udp,
}
use skadi_core.Transport.Mux.{
  MuxSession, Net, Relay, Relayed, remove_session, insert_session, reader_of, write_frame,
  write_end, write_encoded, write_mux_data, send, spawn, spawned_after, send_tcp_payload,
  send_payload, opened_tcp, opened_udp, open_tcp_session, open_udp_session, forwarded,
  forward_keep_frame, tcp, udp,
}
use skadi_core.Transport.Mux.Steps.{
  network_or_tcp, opens, ended, handle_session_frame, reader_data, reader_gone, reader_ends,
}

abbrev pub total : List (ℕ × List ℕ) → ℕ
total [] = 0
total (s ∷ sent) = length s.1 + total sent

pub total-append :
    (xs : List (ℕ × List ℕ)) (x : ℕ × List ℕ) → total (xs ++ (x ∷ [])) ≡ total xs + length x.1
total-append [] x = omega arith
total-append (y ∷ xs) x = omega (arith, total-append xs x)

-- No reader of the table has a number that is still to be given.
abbrev pub AreSpawned : ℕ → List (ℕ × MuxSession) → Type 0
AreSpawned n = All (λ s. reader_of s.1 < n)

-- The count is that of the bytes that the sockets were given.
abbrev pub IsCounted : Relay → Type 0
IsCounted r = r.client_to_upstream ≡ total r.sent

pub record IsSound (r : Relay) : Type 0 where
  pub counted : IsCounted r
  pub readers : AreSpawned r.spawned r.sessions

remove_session-AreSpawned :
    (n : ℕ) (sessions : List (ℕ × MuxSession)) (id : ℕ)
    → AreSpawned n sessions
    → AreSpawned n (remove_session sessions id)
unfolding remove_session
remove_session-AreSpawned n [] id h = tt
remove_session-AreSpawned n (s ∷ sessions) id (h, hs) = elim (Bool-cases (s.0 == id)) [
  | inl e ↦ rw e (remove_session-AreSpawned n sessions id hs)
  | inr e ↦ rw e (h, remove_session-AreSpawned n sessions id hs)
]

pub grow-AreSpawned :
    (n : ℕ) (sessions : List (ℕ × MuxSession)) → AreSpawned n sessions → AreSpawned (suc n) sessions
grow-AreSpawned n [] h = tt
grow-AreSpawned n (s ∷ sessions) (h, hs) = (omega (arith, h), grow-AreSpawned n sessions hs)

frame-IsSound :
    (net : Net) (frame : List ℕ) (r : Relay) → IsSound r → IsSound (write_frame net frame r).1
unfolding write_frame
frame-IsSound net frame r h = elim (Bool-cases net.writable) [
  | inl e ↦ rw e (record { counted = h.counted; readers = h.readers })
  | inr e ↦ rw e h
]

pub encoded-IsSound :
    (net : Net) (x : Outcome MuxError (List ℕ)) (r : Relay)
    → IsSound r
    → IsSound (write_encoded net x r).1
encoded-IsSound net (ok frame) r h = frame-IsSound net frame r h
encoded-IsSound net (err e) r h = h
encoded-IsSound net panic r h = h

send-IsSound :
    (net : Net) (socket : ℕ) (payload : List ℕ) (r : Relay)
    → IsSound r
    → IsSound (send net socket payload r).1
unfolding send
send-IsSound net socket payload r h = elim (Bool-cases (net.accepts socket payload)) [
  | inl e ↦ rw e (record {
    counted = let k = h.counted in omega (arith, k, total-append r.sent (socket, payload));
    readers = h.readers;
  })
  | inr e ↦ rw e h
]

payload-IsSound :
    (net : Net) (socket : ℕ) (payload : Option (List ℕ)) (r : Relay)
    → IsSound r
    → IsSound (send_payload net socket payload r).1
payload-IsSound net socket none r h = h
payload-IsSound net socket (some []) r h = h
payload-IsSound net socket (some (b ∷ bytes)) r h = send-IsSound net socket (b ∷ bytes) r h

tcp_payload-IsSound :
    (net : Net) (socket : ℕ) (payload : Option (List ℕ)) (r : Relay)
    → IsSound r
    → IsSound (send_tcp_payload net socket payload r).1
tcp_payload-IsSound net socket none r h = h
tcp_payload-IsSound net socket (some bytes) r h = send-IsSound net socket bytes r h

spawn-IsSound :
    (session : ℕ → MuxSession) (id : ℕ) (r : Relay)
    → reader_of (session r.spawned) ≡ r.spawned
    → IsSound r
    → IsSound (spawn session id r)
unfolding spawn insert_session
spawn-IsSound session id r e h = record {
  counted = h.counted;
  readers = (
    omega (arith, e),
    remove_session-AreSpawned (suc r.spawned) r.sessions id
        (grow-AreSpawned r.spawned r.sessions h.readers),
  );
}

after-IsSound :
    (session : ℕ → MuxSession) (id : ℕ) (out : Relayed)
    → ((n : ℕ) → reader_of (session n) ≡ n)
    → IsSound out.1
    → IsSound (spawned_after session id out).1
after-IsSound session id (ok done, r) e h = spawn-IsSound session id r (e r.spawned) h
after-IsSound session id (err x, r) e h = h
after-IsSound session id (panic, r) e h = h

tcp-IsSound :
    (net : Net) (frame : MuxFrame) (socket : Option ℕ) (r : Relay)
    → IsSound r
    → IsSound (opened_tcp net frame socket r).1
tcp-IsSound net frame none r h = h
tcp-IsSound net frame (some socket) r h =
    after-IsSound (tcp socket) _ _ (λ n. refl) (tcp_payload-IsSound net socket frame.payload r h)

udp-IsSound :
    (net : Net) (frame : MuxFrame) (socket : Option ℕ) (r : Relay)
    → IsSound r
    → IsSound (opened_udp net frame socket r).1
udp-IsSound net frame none r h = h
udp-IsSound net frame (some socket) r h =
    after-IsSound (udp socket) _ _ (λ n. refl) (payload-IsSound net socket frame.payload r h)

opens-IsSound :
    (net : Net) (frame : MuxFrame) (target : Option Endpoint) (r : Relay)
    → IsSound r
    → IsSound (opens net frame target r).1
unfolding open_tcp_session open_udp_session write_end
opens-IsSound net frame none r h = h
opens-IsSound net frame (some target) r h =
    elim (Bool-cases (network_or_tcp frame.meta.network == network_tcp)) [
      | inl e ↦ rw e (tcp-IsSound net frame _ r h)
      | inr e ↦ rw e (elim (Bool-cases (network_or_tcp frame.meta.network == network_udp)) [
        | inl f ↦ rw f (udp-IsSound net frame _ r h)
        | inr f ↦ rw f (frame-IsSound net _ r h)
      ])
    ]

forwarded-IsSound :
    (net : Net) (frame : MuxFrame) (session : Option MuxSession) (r : Relay)
    → IsSound r
    → IsSound (forwarded net frame session r).1
unfolding write_end
forwarded-IsSound net frame none r h = frame-IsSound net _ r h
forwarded-IsSound net frame (some session) r h = payload-IsSound net _ frame.payload r h

ended-IsSound :
    (id : ℕ) (session : Option MuxSession) (r : Relay) → IsSound r → IsSound (ended id session r)
ended-IsSound id none r h = record {
  counted = h.counted;
  readers = remove_session-AreSpawned r.spawned r.sessions id h.readers;
}
ended-IsSound id (some session) r h = record {
  counted = h.counted;
  readers = remove_session-AreSpawned r.spawned r.sessions id h.readers;
}

pub session_frame-IsSound :
    (net : Net) (frame : MuxFrame) (r : Relay)
    → IsSound r
    → IsSound (handle_session_frame net frame r).1
unfolding handle_session_frame forward_keep_frame
session_frame-IsSound net frame r h = elim (Bool-cases (frame.meta.status == session_status_new)) [
  | inl e ↦ rw e (opens-IsSound net frame _ r h)
  | inr e ↦ rw e (elim (Bool-cases (frame.meta.status == session_status_keep)) [
    | inl f ↦ rw f (forwarded-IsSound net frame _ r h)
    | inr f ↦ rw f (elim (Bool-cases (frame.meta.status == session_status_end)) [
      | inl g ↦ rw g (ended-IsSound frame.meta.session_id _ r h)
      | inr g ↦ rw g (elim (Bool-cases (frame.meta.status == session_status_keep_alive)) [
        | inl k ↦ rw k h
        | inr k ↦ rw k h
      ])
    ])
  ])
]

pub gone-IsSound : (id task : ℕ) (r : Relay) → IsSound r → IsSound (reader_gone id task r)
unfolding reader_gone
gone-IsSound id task r h = record {
  counted = h.counted;
  readers = remove_session-AreSpawned r.spawned r.sessions id h.readers;
}

pub end-IsSound : (net : Net) (id : ℕ) (r : Relay) → IsSound r → IsSound (write_end net id r).1
unfolding write_end
end-IsSound net id r h = frame-IsSound net (encode_end_frame id false) r h

pub ends-IsSound :
    (net : Net) (id task : ℕ) (r : Relay) → IsSound r → IsSound (reader_ends net id task r)
unfolding reader_ends
ends-IsSound net id task r h = gone-IsSound id task _ (end-IsSound net id r h)

pub read-IsSound :
    (net : Net) (id : ℕ) (bytes : List ℕ) (r : Relay)
    → IsSound r
    → IsSound (reader_data net id bytes r).1
unfolding reader_data write_mux_data
read-IsSound net id bytes r h = encoded-IsSound net _ r h
