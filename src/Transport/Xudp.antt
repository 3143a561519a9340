-- ===== src/Transport/Xudp.antt =====
-- crates/skadi-transport/src/xudp.rs: the table of UDP sockets that outlive their session, by global
-- identifier. A socket and a reader's handle are numbers; the reader that an operation aborts is part of
-- its answer. The lock on the table makes each operation one step; instants are numbers of nanoseconds.
pub mod Table
pub mod Isolation
pub mod Kept
mod Tests
use skadi_core.Prelude.{
  ℕ, ◌+◌, ◌*◌, ◌&&◌, Bool, true, false, List, [], ◌∷◌, Option, none, some, leb, if◌then◌else◌,
}
use skadi_core.Endpoint.{octets_eq}

abbrev pub xudp_expire_ttl : ℕ
xudp_expire_ttl = 60 * 1000000000

pub data XudpStatus : Type 0 where
  active : XudpStatus
  initializing : XudpStatus
  expiring : XudpStatus

pub record XudpEntry : Type 0 where
  pub socket : ℕ
  pub status : XudpStatus
  pub expire_at : Option ℕ
  pub reader_abort : Option ℕ

abbrev pub Entries : Type 0
Entries = List (List ℕ × XudpEntry)

pub get : Entries → List ℕ → Option XudpEntry
get [] id = none
get (e ∷ entries) id = let rest = get entries id in if octets_eq e.0 id then some e.1 else rest

-- What becomes of the entry of an identifier that `get` finds.
pub set : Entries → List ℕ → XudpEntry → Entries
set [] id entry = []
set (e ∷ entries) id entry =
    let rest = set entries id entry in if octets_eq e.0 id then (id, entry) ∷ entries else e ∷ rest

-- What `acquire_inner` does to an entry that it finds: the reader that it aborts, and the entry.
pub hit : XudpEntry → Option ℕ × XudpEntry
hit entry = elim entry.status [
  | initializing ↦ (none, entry)
  | active ↦ (
    entry.reader_abort,
    record { socket = entry.socket; status = active; expire_at = none; reader_abort = none },
  )
  | expiring ↦ (
    entry.reader_abort,
    record { socket = entry.socket; status = active; expire_at = none; reader_abort = none },
  )
]

-- The answer of `acquire_inner`: a socket and whether it was there, or the error of `bind`.
pub record Acquired : Type 0 where
  pub entries : Entries
  pub socket : Option (ℕ × Bool)
  pub aborted : Option ℕ

-- `acquire_inner` behind the look into the table; `bind` is the result of `UdpSocket::bind`, none where
-- that fails.
pub acquire_found : Entries → List ℕ → Option ℕ → Option XudpEntry → Acquired
acquire_found entries id bind (some entry) = record {
  entries = set entries id (hit entry).1;
  socket = some (entry.socket, true);
  aborted = (hit entry).0;
}
acquire_found entries id none none = record { entries = entries; socket = none; aborted = none }
acquire_found entries id (some socket) none = record {
  entries =
      (id, record { socket = socket; status = active; expire_at = none; reader_abort = none })
      ∷ entries;
  socket = some (socket, false);
  aborted = none;
}

pub acquire : Entries → List ℕ → Option ℕ → Acquired
acquire entries id bind = acquire_found entries id bind (get entries id)

-- What `detach_inner` does to an entry at the instant `now`.
pub expire : ℕ → XudpEntry → Option ℕ × XudpEntry
expire now entry = elim entry.status [
  | active ↦ (
    entry.reader_abort,
    record {
      socket = entry.socket;
      status = expiring;
      expire_at = some (now + xudp_expire_ttl);
      reader_abort = none;
    },
  )
  | initializing ↦ (none, entry)
  | expiring ↦ (none, entry)
]

pub detach_found : Entries → List ℕ → ℕ → Option XudpEntry → Entries × Option ℕ
detach_found entries id now none = (entries, none)
detach_found entries id now (some entry) =
    (set entries id (expire now entry).1, (expire now entry).0)

pub detach : Entries → List ℕ → ℕ → Entries × Option ℕ
detach entries id now = detach_found entries id now (get entries id)

pub with_reader : XudpEntry → ℕ → XudpEntry
with_reader entry reader = record {
  socket = entry.socket;
  status = entry.status;
  expire_at = entry.expire_at;
  reader_abort = some reader;
}

pub register_found : Entries → List ℕ → ℕ → Option XudpEntry → Entries
register_found entries id reader none = entries
register_found entries id reader (some entry) = set entries id (with_reader entry reader)

pub register_reader : Entries → List ℕ → ℕ → Entries
register_reader entries id reader = register_found entries id reader (get entries id)

pub is_expired : ℕ → XudpEntry → Bool
is_expired now entry = elim entry.status [
  | active ↦ false
  | initializing ↦ false
  | expiring ↦ elim entry.expire_at [ none ↦ false | some t ↦ leb t now ]
]

-- The entries that are left, and the readers that are aborted.
pub cleanup_expired : Entries → ℕ → Entries × List ℕ
cleanup_expired [] now = ([], [])
cleanup_expired (e ∷ entries) now =
    let rest = cleanup_expired entries now in
    if is_expired now e.1
    then (rest.0, elim e.1.reader_abort [ none ↦ rest.1 | some reader ↦ reader ∷ rest.1 ])
    else (e ∷ rest.0, rest.1)
