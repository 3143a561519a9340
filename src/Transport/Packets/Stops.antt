-- ===== src/Transport/Packets/Stops.antt =====
-- The map of session.rs, and the end of the loop over it.
use skadi_core.Prelude.{
  ℕ, zero, suc, ◌+◌, ◌%◌, ◌≤◌, ◌<◌, ◌≡◌, refl, ap, ◌==◌, false, Bool-cases, ◌⊎◌, inl, inr, [], ◌∷◌,
  Option, none, some, length, arith,
}
use mathlib.Core.Path.{subst⁻¹}
use skadi_core.Transport.Packets.{Bytes, Pending, PacketState, find, erase, drain, u64_values}

pub find_erased : (p : Pending) (k : ℕ) → find (erase p k) k ≡ none
unfolding find erase
find_erased [] k = refl
find_erased (e ∷ p) k = elim (Bool-cases (e.0 == k)) [
  | inl h ↦ rw h (find_erased p k)
  | inr h ↦ rw (h, h) (find_erased p k)
]

pub find_others :
    (p : Pending) (k other : ℕ) → (k == other) ≡ false → find (erase p k) other ≡ find p other
unfolding find erase
find_others [] k other d = refl
find_others (e ∷ p) k other d = elim (Bool-cases (e.0 == k)) [
  | inl h ↦
      let not_other : (e.0 == other) ≡ false = ground arith in
      rw (h, not_other) (find_others p k other d)
  | inr h ↦ elim (Bool-cases (e.0 == other)) [
    | inl g ↦ rw (h, g) refl
    | inr g ↦ rw (h, g) (find_others p k other d)
  ]
]

erase-length : (p : Pending) (k : ℕ) → length (erase p k) ≤ length p
unfolding erase
erase-length [] k = omega arith
erase-length (e ∷ p) k = elim (Bool-cases (e.0 == k)) [
  | inl h ↦ rw h (omega (arith, erase-length p k))
  | inr h ↦ rw h (omega (arith, erase-length p k))
]

pub erase_found :
    (p : Pending) (k : ℕ) (b : Bytes) → find p k ≡ some b → length (erase p k) < length p
unfolding find erase
erase_found [] k b e = cc
erase_found (x ∷ p) k b e = elim (Bool-cases (x.0 == k)) [
  | inl h ↦ rw h (omega (arith, erase-length p k))
  | inr h ↦ rw h (omega (arith, erase_found p k b (rw h at e)))
]

find_empty : (p : Pending) (k : ℕ) → length p ≤ 0 → find p k ≡ none
unfolding find
find_empty [] k h = refl
find_empty (e ∷ p) k h = absurd (omega arith)

pub Option-cases {ℓ} : {A : Type ℓ} (x : Option A) → (x ≡ none) ⊎ ((a : A) × (x ≡ some a))
Option-cases none = inl refl
Option-cases (some a) = inr (a, refl)

-- The state behind one pass of the loop.
abbrev pub advanced : PacketState → PacketState
advanced s = record {
  next_seq = (s.next_seq + 1) % u64_values;
  pending = erase s.pending s.next_seq;
}

module _ {Q : Type 0} (try_send : Q → Bytes → Q) (fuel : ℕ) (s : PacketState) (q : Q) where
  pub drain-none : find s.pending s.next_seq ≡ none → drain try_send (suc fuel) s q ≡ (s, q)
  unfolding drain
  drain-none e =
      ap
        (λ found. elim found [
          | none ↦ (s, q)
          | some chunk ↦ drain try_send fuel (advanced s) (try_send q chunk)
        ])
        e

  pub drain-some :
      (chunk : Bytes)
      → find s.pending s.next_seq ≡ some chunk
      → drain try_send (suc fuel) s q ≡ drain try_send fuel (advanced s) (try_send q chunk)
  unfolding drain
  drain-some chunk e =
      ap
        (λ found. elim found [
          | none ↦ (s, q)
          | some chunk ↦ drain try_send fuel (advanced s) (try_send q chunk)
        ])
        e

-- Where the loop has ended: the next packet is not there.
abbrev pub IsDrained : PacketState → Type 0
IsDrained t = find t.pending t.next_seq ≡ none

module _ {Q : Type 0} (try_send : Q → Bytes → Q) where
  -- As many passes as entries are enough.
  pub drain-IsDrained :
      (fuel : ℕ) (s : PacketState) (q : Q)
      → length s.pending ≤ fuel
      → IsDrained (drain try_send fuel s q).0
  unfolding drain
  drain-IsDrained zero s q h = find_empty s.pending s.next_seq h
  drain-IsDrained (suc fuel) s q h = elim (Option-cases (find s.pending s.next_seq)) [
    | inl e ↦ subst⁻¹ (λ r. IsDrained r.0) (drain-none try_send fuel s q e) e
    | inr (chunk, e) ↦
        subst⁻¹ (λ r. IsDrained r.0) (drain-some try_send fuel s q chunk e)
          (drain-IsDrained fuel (advanced s) (try_send q chunk)
            (omega (arith, erase_found s.pending s.next_seq chunk e)))
  ]
