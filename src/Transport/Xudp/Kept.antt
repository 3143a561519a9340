-- ===== src/Transport/Xudp/Kept.antt =====
-- How long xudp.rs keeps a socket that no session uses.
use skadi_core.Prelude.{
  ℕ, ◌+◌, ◌≡◌, refl, ap, ◌∙◌, Bool, true, false, Bool-cases, inl, inr, List, [], ◌∷◌, Option, none,
  some, leb, if◌then◌else◌,
}
use skadi_core.Endpoint.{octets_eq_refl}
use skadi_core.Transport.Xudp.{
  active, XudpEntry, Entries, xudp_expire_ttl, get, expire, is_expired, acquire, acquire_found,
}
use skadi_core.Transport.Xudp.Isolation.{detached, cleaned, run, watched_all, get-run}
use skadi_core.Transport.Xudp.Table.{IsTable}

detached_cone :
    (id : List ℕ) (x : XudpEntry) (now later : ℕ)
    → x.status ≡ active
    → watched_all id (some x) (detached id now ∷ cleaned later ∷ [])
      ≡ (if leb (now + xudp_expire_ttl) later then none else some (expire now x).1)
unfolding expire is_expired
detached_cone id x now later h = rw (octets_eq_refl id, h) refl

-- The socket that a session gets for what the table has.
abbrev pub answer : Option ℕ → Option XudpEntry → Option (ℕ × Bool)
answer none none = none
answer (some socket) none = some (socket, false)
answer bind (some x) = some (x.socket, true)

acquire-answer :
    (entries : Entries) (id : List ℕ) (bind : Option ℕ) (found : Option XudpEntry)
    → (acquire_found entries id bind found).socket ≡ answer bind found
unfolding acquire_found
acquire-answer entries id none none = refl
acquire-answer entries id (some socket) none = refl
acquire-answer entries id none (some x) = refl
acquire-answer entries id (some socket) (some x) = refl

expire-answer :
    (bind : Option ℕ) (x : XudpEntry) (now : ℕ)
    → x.status ≡ active
    → answer bind (some (expire now x).1) ≡ some (x.socket, true)
unfolding expire
expire-answer none x now h = rw h refl
expire-answer (some socket) x now h = rw h refl

-- The socket of an identifier that is in use, detached at the instant `now`: a cleanup before `now` and the time to
-- live keeps it, for the next session of the identifier to have; a later one takes it out.
pub detached_kept :
    (entries : Entries) (id : List ℕ) (x : XudpEntry) (now later : ℕ) (bind : Option ℕ)
    → IsTable entries
    → get entries id ≡ some x
    → x.status ≡ active
    → let entries_after = run entries (detached id now ∷ cleaned later ∷ []) in
      (acquire entries_after id bind).socket
      ≡ (if leb (now + xudp_expire_ttl) later then answer bind none else some (x.socket, true))
unfolding acquire
detached_kept entries id x now later bind t e h =
    let left =
      get-run entries (detached id now ∷ cleaned later ∷ []) id t
      ∙ ap (λ y. watched_all id y (detached id now ∷ cleaned later ∷ [])) e
      ∙ detached_cone id x now later h in
    acquire-answer _ id bind _
    ∙ ap (answer bind) left
    ∙ elim (Bool-cases (leb (now + xudp_expire_ttl) later)) [
      | inl p ↦ rw p refl
      | inr p ↦ rw p (expire-answer bind x now h)
    ]
