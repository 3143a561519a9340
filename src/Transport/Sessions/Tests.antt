-- ===== src/Transport/Sessions/Tests.antt =====
-- Sessions of session.rs on concrete requests.
use skadi_core.Prelude.{◌≡◌, ◌≢◌, refl, false, List, [], ◌∷◌, ◌++◌, some, arith}
use skadi_core.Endpoint.{octets_eq}
use skadi_core.Transport.Packets.{Bytes}
use skadi_core.Transport.Sessions.{
  XhttpSessionManager, get, get_or_create, remove, attach_post_body, take_upload_rx, new_session,
}
use skadi_core.Transport.Sessions.Handles.{IsNumbered, get_or_create_lem}

abbrev collect : List Bytes → Bytes → List Bytes
collect q b = q ++ (b ∷ [])

-- The body ends at a read of no bytes.
body_read :
    attach_post_body collect collect []
      (some (1 ∷ 2 ∷ []) ∷ some (3 ∷ []) ∷ some [] ∷ some (4 ∷ []) ∷ [])
    ≡ (1 ∷ 2 ∷ []) ∷ (3 ∷ []) ∷ []
unfolding attach_post_body
body_read = refl

-- The receiver is taken once.
taken_once : (take_upload_rx (take_upload_rx new_session).1).0 ≡ false
unfolding take_upload_rx
taken_once = refl

abbrev manager : XhttpSessionManager
manager = record { sessions = (2 ∷ [], 0) ∷ []; created = 1 }

manager-IsNumbered : IsNumbered manager
manager-IsNumbered = ground arith

differs : octets_eq (1 ∷ []) (2 ∷ []) ≡ false
unfolding octets_eq
differs = refl

get_or_create_lem_example :
    let (after, session) = get_or_create manager (1 ∷ []) in
    (get_or_create after (1 ∷ []) ≡ (after, session))
    × (get after.sessions (2 ∷ []) ≡ get manager.sessions (2 ∷ []))
    × (get (remove after (1 ∷ [])).sessions (2 ∷ []) ≡ get manager.sessions (2 ∷ []))
    × ((get_or_create (remove after (1 ∷ [])) (1 ∷ [])).1 ≢ session)
    × IsNumbered after
    × IsNumbered (remove after (1 ∷ []))
get_or_create_lem_example = get_or_create_lem manager (1 ∷ []) (2 ∷ []) manager-IsNumbered differs
