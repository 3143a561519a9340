-- ===== src/Vless/Mux/Metadata.antt =====
-- `parse_meta_body` after `meta_body`: the metadata of a frame, without its length.
use mathlib.Core.List.{append-nil}
use skadi_core.Prelude.{
  ℕ, ◌+◌, ◌/◌, ◌%◌, ◌≤◌, ◌≡◌, refl, ◌⊎◌, List, [], ◌∷◌, ◌++◌, Option, none, some, arith, length,
  length-append, take_front, drop_front,
}
use skadi_core.Prelude.Bytes.{be16-to_be16, IsU16}
use skadi_core.Prelude.Outcome.{ok, ◌>>=◌}
use skadi_core.Endpoint.{Endpoint, IsEndpoint, IsShort}
use skadi_core.Vless.Request.{encode_port_address}
use skadi_core.Vless.Request.Address.{parse_port_address-encode, encode_port_address_short}
use skadi_core.Vless.Mux.{
  MuxMeta, session_status_new, session_status_keep, network_tcp, network_udp, needs_target,
  parse_global_id, parse_meta_target, parse_meta_body, encode_new, encode_keep, meta_body,
}

-- What the metadata can say in the format, besides its session, status and option.
abbrev pub Carries : ℕ → Option ℕ → Option Endpoint → Option (List ℕ) → Type 0
Carries status none none none = Unit
Carries status (some n) (some t) none =
    IsEndpoint t
    × IsShort t
    × (((status ≡ session_status_new) × ((n ≡ network_tcp) ⊎ (n ≡ network_udp)))
        ⊎ ((status ≡ session_status_keep) × (n ≡ network_udp)))
Carries status (some n) (some t) (some id) =
    IsEndpoint t × IsShort t × (status ≡ session_status_new) × (n ≡ network_udp) × (length id ≡ 8)
Carries status network target id = ⊥

pub record IsCanonical (meta : MuxMeta) : Type 0 where
  pub session : IsU16 meta.session_id
  pub carries : Carries meta.status meta.network meta.target meta.global_id

abbrev pub meta_of : ℕ → ℕ → ℕ → Option ℕ → Option Endpoint → Option (List ℕ) → MuxMeta
meta_of session_id status option network target global_id = record {
  session_id = session_id;
  status = status;
  option = option;
  network = network;
  target = target;
  global_id = global_id;
}

module _ (session_id status option : ℕ) (u : IsU16 session_id) where
  bare_lem :
      parse_meta_body (meta_body (meta_of session_id status option none none none))
      ≡ ok (meta_of session_id status option none none none)
  unfolding parse_meta_body meta_body needs_target
  bare_lem = ground (arith, be16-to_be16 session_id u)

  module _ (t : Endpoint) (e : IsEndpoint t) (s : IsShort t) where
    target_step :
        (hi lo network : ℕ) (id : List ℕ)
        → parse_meta_target
            (hi ∷ lo ∷ status ∷ option ∷ network ∷ (encode_port_address t ++ id))
            session_id
            status
            option
          ≡ (parse_global_id
                (hi ∷ lo ∷ status ∷ option ∷ network ∷ (encode_port_address t ++ id))
                status
                network
                (5 + length (encode_port_address t))
              >>= λ found. ok (meta_of session_id status option (some network) (some t) found))
    unfolding parse_meta_target
    target_step hi lo network id = ground (arith, parse_port_address-encode t id e s)

    no_global_id :
        (hi lo network : ℕ)
        → parse_global_id
            (hi ∷ lo ∷ status ∷ option ∷ network ∷ (encode_port_address t ++ []))
            status
            network
            (5 + length (encode_port_address t))
          ≡ ok none
    unfolding parse_global_id
    no_global_id hi lo network = ground (arith, length-append (encode_port_address t) [])

    a_global_id :
        (hi lo : ℕ) (id : List ℕ)
        → length id ≡ 8
        → status ≡ session_status_new
        → parse_global_id
            (hi ∷ lo ∷ status ∷ option ∷ network_udp ∷ (encode_port_address t ++ id))
            status
            network_udp
            (5 + length (encode_port_address t))
          ≡ ok (some id)
    unfolding parse_global_id
    a_global_id hi lo id h k = ground (
      arith,
      length-append (encode_port_address t) id,
      drop_front (length (encode_port_address t)) (encode_port_address t) id refl,
      take_front 8 id [] h,
    )

    target_lem :
        (network : ℕ)
        → ((status ≡ session_status_new) × ((network ≡ network_tcp) ⊎ (network ≡ network_udp)))
          ⊎ ((status ≡ session_status_keep) × (network ≡ network_udp))
        → parse_meta_body
            (meta_body (meta_of session_id status option (some network) (some t) none))
          ≡ ok (meta_of session_id status option (some network) (some t) none)
    unfolding parse_meta_body meta_body needs_target encode_new encode_keep
    target_lem network c = ground (
      arith,
      c,
      be16-to_be16 session_id u,
      rw append-nil at (target_step (session_id / 256 % 256) (session_id % 256) network []),
      rw append-nil at (no_global_id (session_id / 256 % 256) (session_id % 256) network),
    )

    global_lem :
        (id : List ℕ)
        → status ≡ session_status_new
        → length id ≡ 8
        → parse_meta_body
            (meta_body (meta_of session_id status option (some network_udp) (some t) (some id)))
          ≡ ok (meta_of session_id status option (some network_udp) (some t) (some id))
    unfolding parse_meta_body meta_body needs_target encode_new
    global_lem id p h = ground (
      arith,
      be16-to_be16 session_id u,
      target_step (session_id / 256 % 256) (session_id % 256) network_udp id,
      a_global_id (session_id / 256 % 256) (session_id % 256) id h p,
    )

pub meta_lem :
    (session_id status option : ℕ) (network : Option ℕ) (target : Option Endpoint)
    (id : Option (List ℕ))
    → IsU16 session_id
    → Carries status network target id
    → parse_meta_body (meta_body (meta_of session_id status option network target id))
      ≡ ok (meta_of session_id status option network target id)
meta_lem i s o none none none u c = bare_lem i s o u
meta_lem i s o (some n) (some t) none u (e, k, c) = target_lem i s o u t e k n c
meta_lem i s o (some n) (some t) (some id) u (e, k, p, q, h) =
    rw q (global_lem i s o u t e k id p h)
meta_lem i s o none none (some id) u c = elim c [ ]
meta_lem i s o none (some t) id u c = elim c [ ]
meta_lem i s o (some n) none id u c = elim c [ ]

pub meta_body_short :
    (session_id status option : ℕ) (network : Option ℕ) (target : Option Endpoint)
    (id : Option (List ℕ))
    → Carries status network target id
    → length (meta_body (meta_of session_id status option network target id)) ≤ 512
unfolding meta_body encode_new encode_keep
meta_body_short i s o none none none c = ground arith
meta_body_short i s o (some n) (some t) none (e, k, c) =
    ground (arith, encode_port_address_short t e k)
meta_body_short i s o (some n) (some t) (some id) (e, k, p, q, h) =
    ground (arith, encode_port_address_short t e k, length-append (encode_port_address t) id)
meta_body_short i s o none none (some id) c = elim c [ ]
meta_body_short i s o none (some t) id c = elim c [ ]
meta_body_short i s o (some n) none id c = elim c [ ]
