-- ===== src/Transport/Mux/Isolated.antt =====
-- What a frame of one session does to another session of mux.rs: nothing.
use skadi_core.Prelude.{
  ℕ, ◌≡◌, refl, sym, ◌∙◌, inl, inr, ◌==◌, ==_iff, false, Bool-cases, List, [], ◌∷◌, Option, none,
  some,
}
use skadi_core.Prelude.Outcome.{ok, err, panic}
use skadi_core.Endpoint.{Endpoint}
use skadi_core.Vless.Mux.{
  MuxFrame, session_status_new, session_status_keep, session_status_end, session_status_keep_alive,
  network_tcp, network_udp,
}
use skadi_core.Transport.Mux.{
  MuxSession, Net, Relay, Relayed, lookup_session, remove_session, insert_session, write_frame,
  write_end, send, spawn, spawned_after, send_tcp_payload, send_payload, opened_tcp, opened_udp,
  open_tcp_session, open_udp_session, forwarded, forward_keep_frame, tcp, udp,
}
use skadi_core.Transport.Mux.Steps.{network_or_tcp, opens, ended, handle_session_frame}

abbrev SessionTable : Type 0
SessionTable = List (ℕ × MuxSession)

lookup_session-remove_session :
    (sessions : SessionTable) (id other : ℕ)
    → (id == other) ≡ false
    → lookup_session (remove_session sessions id) other ≡ lookup_session sessions other
unfolding lookup_session remove_session
lookup_session-remove_session [] id other h = refl
lookup_session-remove_session (s ∷ sessions) id other h = elim (Bool-cases (s.0 == id)) [
  | inl e ↦
      rw (e, lookup_session-remove_session sessions id other h)
        (let differ = rw (sym ((==_iff s.0 id).0 e)) at h in rw differ refl)
  | inr e ↦ rw (e, lookup_session-remove_session sessions id other h) refl
]

lookup_session-removed :
    (sessions : SessionTable) (id : ℕ) → lookup_session (remove_session sessions id) id ≡ none
unfolding lookup_session remove_session
lookup_session-removed [] id = refl
lookup_session-removed (s ∷ sessions) id = elim (Bool-cases (s.0 == id)) [
  | inl e ↦ rw (e, lookup_session-removed sessions id) refl
  | inr e ↦ rw (e, e, lookup_session-removed sessions id) refl
]

lookup_session-insert_session :
    (sessions : SessionTable) (id other : ℕ) (session : MuxSession)
    → (id == other) ≡ false
    → lookup_session (insert_session sessions id session) other ≡ lookup_session sessions other
unfolding lookup_session insert_session
lookup_session-insert_session sessions id other session h =
    rw (h, lookup_session-remove_session sessions id other h) refl

abbrev Same : ℕ → Relay → Relay → Type 0
Same other r after = lookup_session after.sessions other ≡ lookup_session r.sessions other

write-Same : (net : Net) (f : List ℕ) (other : ℕ) (r : Relay) → Same other r (write_frame net f r).1
unfolding write_frame
write-Same net f other r = elim (Bool-cases net.writable) [ inl e ↦ rw e refl | inr e ↦ rw e refl ]

send-Same :
    (net : Net) (socket : ℕ) (bytes : List ℕ) (other : ℕ) (r : Relay)
    → Same other r (send net socket bytes r).1
unfolding send
send-Same net socket bytes other r = elim (Bool-cases (net.accepts socket bytes)) [
  | inl e ↦ rw e refl
  | inr e ↦ rw e refl
]

payload-Same :
    (net : Net) (socket : ℕ) (payload : Option (List ℕ)) (other : ℕ) (r : Relay)
    → Same other r (send_payload net socket payload r).1
payload-Same net socket none other r = refl
payload-Same net socket (some []) other r = refl
payload-Same net socket (some (b ∷ bytes)) other r = send-Same net socket (b ∷ bytes) other r

tcp_payload-Same :
    (net : Net) (socket : ℕ) (payload : Option (List ℕ)) (other : ℕ) (r : Relay)
    → Same other r (send_tcp_payload net socket payload r).1
tcp_payload-Same net socket none other r = refl
tcp_payload-Same net socket (some bytes) other r = send-Same net socket bytes other r

after-Same :
    (session : ℕ → MuxSession) (id other : ℕ) (r : Relay) (out : Relayed)
    → (id == other) ≡ false
    → Same other r out.1
    → Same other r (spawned_after session id out).1
unfolding spawn
after-Same session id other r (ok done, q) h same =
    lookup_session-insert_session q.sessions id other (session q.spawned) h ∙ same
after-Same session id other r (err e, q) h same = same
after-Same session id other r (panic, q) h same = same

tcp-Same :
    (net : Net) (f : MuxFrame) (socket : Option ℕ) (other : ℕ) (r : Relay)
    → (f.meta.session_id == other) ≡ false
    → Same other r (opened_tcp net f socket r).1
tcp-Same net f none other r h = refl
tcp-Same net f (some socket) other r h =
    after-Same (tcp socket) f.meta.session_id other r _ h
      (tcp_payload-Same net socket f.payload other r)

udp-Same :
    (net : Net) (f : MuxFrame) (socket : Option ℕ) (other : ℕ) (r : Relay)
    → (f.meta.session_id == other) ≡ false
    → Same other r (opened_udp net f socket r).1
udp-Same net f none other r h = refl
udp-Same net f (some socket) other r h =
    after-Same (udp socket) f.meta.session_id other r _ h
      (payload-Same net socket f.payload other r)

opens-Same :
    (net : Net) (f : MuxFrame) (target : Option Endpoint) (other : ℕ) (r : Relay)
    → (f.meta.session_id == other) ≡ false
    → Same other r (opens net f target r).1
unfolding open_tcp_session open_udp_session write_end
opens-Same net f none other r h = refl
opens-Same net f (some target) other r h =
    elim (Bool-cases (network_or_tcp f.meta.network == network_tcp)) [
      | inl e ↦ rw e (tcp-Same net f _ other r h)
      | inr e ↦ rw e (elim (Bool-cases (network_or_tcp f.meta.network == network_udp)) [
        | inl g ↦ rw g (udp-Same net f _ other r h)
        | inr g ↦ rw g (write-Same net _ other r)
      ])
    ]

forwarded-Same :
    (net : Net) (f : MuxFrame) (session : Option MuxSession) (other : ℕ) (r : Relay)
    → Same other r (forwarded net f session r).1
unfolding write_end
forwarded-Same net f none other r = write-Same net _ other r
forwarded-Same net f (some session) other r = payload-Same net _ f.payload other r

ended-Same :
    (id : ℕ) (session : Option MuxSession) (other : ℕ) (r : Relay)
    → (id == other) ≡ false
    → Same other r (ended id session r)
ended-Same id none other r h = lookup_session-remove_session r.sessions id other h
ended-Same id (some session) other r h = lookup_session-remove_session r.sessions id other h

-- A frame leaves every session but its own as it was.
frame-Same :
    (net : Net) (f : MuxFrame) (other : ℕ) (r : Relay)
    → (f.meta.session_id == other) ≡ false
    → Same other r (handle_session_frame net f r).1
unfolding handle_session_frame forward_keep_frame
frame-Same net f other r h = elim (Bool-cases (f.meta.status == session_status_new)) [
  | inl a ↦ rw a (opens-Same net f _ other r h)
  | inr a ↦ rw a (elim (Bool-cases (f.meta.status == session_status_keep)) [
    | inl b ↦ rw b (forwarded-Same net f _ other r)
    | inr b ↦ rw b (elim (Bool-cases (f.meta.status == session_status_end)) [
      | inl c ↦ rw c (ended-Same f.meta.session_id _ other r h)
      | inr c ↦ rw c (elim (Bool-cases (f.meta.status == session_status_keep_alive)) [
        | inl d ↦ rw d refl
        | inr d ↦ rw d refl
      ])
    ])
  ])
]

ended-gone :
    (id : ℕ) (session : Option MuxSession) (r : Relay)
    → lookup_session (ended id session r).sessions id ≡ none
ended-gone id none r = lookup_session-removed r.sessions id
ended-gone id (some session) r = lookup_session-removed r.sessions id

-- A frame leaves every session but its own as it was, and after one that ends a session, data for it goes
-- to no socket: the client is told once more that it is over.
pub handle_session_frame_isolated :
    (net : Net) (f : MuxFrame) (r : Relay)
    → ((other : ℕ)
        → (f.meta.session_id == other) ≡ false
        → lookup_session (handle_session_frame net f r).1.sessions other
          ≡ lookup_session r.sessions other)
      × (f.meta.status ≡ session_status_end
          → (keep : MuxFrame) → keep.meta.session_id ≡ f.meta.session_id
          → forward_keep_frame net keep (handle_session_frame net f r).1
            ≡ write_end net f.meta.session_id (handle_session_frame net f r).1)
unfolding handle_session_frame forward_keep_frame
handle_session_frame_isolated net f r = (
  (λ other h. frame-Same net f other r h),
  λ e keep same.
      rw (e, same, ended-gone f.meta.session_id (lookup_session r.sessions f.meta.session_id) r)
        refl,
)
