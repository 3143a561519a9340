-- ===== src/Transport/Packets.antt =====
-- crates/skadi-transport/src/xhttp/session.rs: the packets of an uplink, which arrive in any order. The map
-- is an association list; `try_send` is that of the channel to the reader of the uplink, whose answer the
-- code ignores.
pub mod Stops
pub mod Ordered
pub mod Reassembly
mod Tests
use skadi_core.Prelude.{
  ℕ, zero, suc, ◌+◌, ◌%◌, ◌==◌, Bool, true, false, List, [], ◌∷◌, Option, none, some, ltb,
  if◌then◌else◌, length,
}

abbrev pub Bytes : Type 0
Bytes = List ℕ

abbrev pub Pending : Type 0
Pending = List (ℕ × Bytes)

pub record PacketState : Type 0 where
  pub next_seq : ℕ
  pub pending : Pending

pub new : PacketState
new = record { next_seq = 0; pending = [] }

pub find : Pending → ℕ → Option Bytes
find [] seq = none
find (entry ∷ pending) seq =
    let rest = find pending seq in if entry.0 == seq then some entry.1 else rest

pub erase : Pending → ℕ → Pending
erase [] seq = []
erase (entry ∷ pending) seq =
    let rest = erase pending seq in if entry.0 == seq then rest else entry ∷ rest

pub insert : Pending → ℕ → Bytes → Pending
insert pending seq payload = (seq, payload) ∷ erase pending seq

abbrev pub u64_values : ℕ
u64_values = 18446744073709551616

module _ {Q : Type 0} (try_send : Q → Bytes → Q) where
  -- `while let Some(chunk) = self.pending.remove(&self.next_seq)`, in at most `fuel` passes.
  pub drain : ℕ → PacketState → Q → PacketState × Q
  drain zero s q = (s, q)
  drain (suc fuel) s q = elim (find s.pending s.next_seq) [
    | none ↦ (s, q)
    | some chunk ↦
        drain fuel
          (record {
            next_seq = (s.next_seq + 1) % u64_values;
            pending = erase s.pending s.next_seq;
          })
          (try_send q chunk)
  ]

  -- A pass takes an entry out, so there are no more passes than entries.
  pub push : PacketState → Q → ℕ → Bytes → PacketState × Q
  push s q seq payload =
      if ltb seq s.next_seq
      then (s, q)
      else let pending = insert s.pending seq payload in
        drain (length pending) (record { next_seq = s.next_seq; pending = pending }) q
