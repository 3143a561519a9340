-- ===== src/Transport/Sessions.antt =====
-- crates/skadi-transport/src/xhttp/session.rs: a session around its packets, and the table of sessions. A
-- session in memory is a number, in the order of their creation; `send` and `try_send` are those of the channel.
pub mod Handles
mod Tests
use skadi_core.Prelude.{ℕ, ◌+◌, Bool, true, false, List, [], ◌∷◌, Option, none, some, if◌then◌else◌}
use skadi_core.Endpoint.{octets_eq}
use skadi_core.Transport.Packets.{Bytes, PacketState, new, push}

-- `receiver` tells that nobody has taken the receiver of the channel.
pub record XhttpSession : Type 0 where
  pub receiver : Bool
  pub packets : PacketState

pub new_session : XhttpSession
new_session = record { receiver = true; packets = new }

pub take_upload_rx : XhttpSession → Bool × XhttpSession
take_upload_rx s = (s.receiver, record { receiver = false; packets = s.packets })

module _ {Q : Type 0} (send try_send : Q → Bytes → Q) where
  -- The reads of the body, one after another: `none` is an error, and no bytes are the end.
  pub attach_post_body : Q → List (Option Bytes) → Q
  attach_post_body q [] = q
  attach_post_body q (none ∷ reads) = q
  attach_post_body q (some [] ∷ reads) = q
  attach_post_body q (some (b ∷ bytes) ∷ reads) = attach_post_body (send q (b ∷ bytes)) reads

  pub push_packet : XhttpSession → Q → ℕ → Bytes → XhttpSession × Q
  push_packet s q seq payload =
      let (packets, sent) = push try_send s.packets q seq payload in
      (record { receiver = s.receiver; packets = packets }, sent)

abbrev pub Table : Type 0
Table = List (List ℕ × ℕ)

pub record XhttpSessionManager : Type 0 where
  pub sessions : Table
  pub created : ℕ

pub get : Table → List ℕ → Option ℕ
get [] id = none
get (e ∷ table) id = let rest = get table id in if octets_eq e.0 id then some e.1 else rest

pub erase : Table → List ℕ → Table
erase [] id = []
erase (e ∷ table) id = let rest = erase table id in if octets_eq e.0 id then rest else e ∷ rest

pub created_for : XhttpSessionManager → List ℕ → Option ℕ → XhttpSessionManager × ℕ
created_for m id (some session) = (m, session)
created_for m id none =
    (record { sessions = (id, m.created) ∷ m.sessions; created = m.created + 1 }, m.created)

pub get_or_create : XhttpSessionManager → List ℕ → XhttpSessionManager × ℕ
get_or_create m session_id = created_for m session_id (get m.sessions session_id)

pub remove : XhttpSessionManager → List ℕ → XhttpSessionManager
remove m session_id = record { sessions = erase m.sessions session_id; created = m.created }
