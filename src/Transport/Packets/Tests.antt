-- ===== src/Transport/Packets/Tests.antt =====
-- Packets that arrive out of order, and a channel that collects what it is sent.
use skadi_core.Prelude.{
  ℕ, ◌<◌, ◌+◌, ◌≡◌, refl, true, false, List, [], ◌∷◌, ◌++◌, length, All, arith, ltb, if◌then◌else◌,
}
use skadi_core.Transport.Packets.{Bytes, new, find, erase, insert, drain, push, u64_values}
use skadi_core.Transport.Packets.Reassembly.{arrived, sent_from, arrived-ordered}
use skadi_core.Transport.Packets.Ordered.{contains}

abbrev collect : List Bytes → Bytes → List Bytes
collect q b = q ++ (b ∷ [])

-- A channel with room for two chunks, which loses the others.
abbrev collect_two : List Bytes → Bytes → List Bytes
collect_two q b = if ltb (length q) 2 then q ++ (b ∷ []) else q

abbrev message : ℕ → Bytes
message n = n ∷ []

-- The packets 2, 0, 0, 4 and 1 arrive, the last one first in the list.
abbrev seqs : List ℕ
seqs = 1 ∷ 4 ∷ 0 ∷ 0 ∷ 2 ∷ []

in_order : (arrived collect message [] seqs).1 ≡ (0 ∷ []) ∷ (1 ∷ []) ∷ (2 ∷ []) ∷ []
unfolding push drain insert erase find new
in_order = refl

lost_chunk : (arrived collect_two message [] seqs).1 ≡ (0 ∷ []) ∷ (1 ∷ []) ∷ []
unfolding push drain insert erase find new
lost_chunk = refl

seqs_small : All (λ seq. seq + 1 < u64_values) seqs
seqs_small = ground arith

arrived-ordered_example :
    (n : ℕ) × ((arrived collect message [] seqs).1 ≡ sent_from collect message [] 0 n)
    × ((k : ℕ) → k < n → contains seqs k ≡ true)
    × (contains seqs n ≡ false)
arrived-ordered_example = arrived-ordered collect message [] seqs seqs_small
