-- ===== src/Transport/Packets/Ordered.antt =====
-- What the packets that have arrived leave in the state of session.rs.
use skadi_core.Prelude.{
  ℕ, ◌+◌, ◌%◌, ◌<◌, ◌≡◌, ◌⊎◌, refl, sym, ap, ◌∙◌, ◌==◌, Bool, true, false, Bool-cases, inl, inr,
  List, [], ◌∷◌, some, if◌then◌else◌, arith,
}
use skadi_core.Transport.Packets.{Bytes, Pending, PacketState, new, find, erase, insert, u64_values}
use skadi_core.Transport.Packets.Stops.{find_erased, find_others, advanced}

abbrev pub contains : List ℕ → ℕ → Bool
contains [] k = false
contains (x ∷ xs) k = let rest = contains xs k in if x == k then true else rest

module _ (message : ℕ → Bytes) where
  -- What holds between two packets, `received` being the numbers that have arrived.
  pub record IsOrdered (received : List ℕ) (s : PacketState) : Type 0 where
    pub done : (k : ℕ) → k < s.next_seq → contains received k ≡ true
    pub held :
        (k : ℕ) (b : Bytes)
        → find s.pending k ≡ some b
        → (b ≡ message k) × (contains received k ≡ true)
    pub kept :
        (k : ℕ)
        → contains received k ≡ true
        → (k < s.next_seq) ⊎ (find s.pending k ≡ some (message k))
    pub within : (k : ℕ) → contains received k ≡ true → k + 1 < u64_values

  pub advanced-IsOrdered :
      (received : List ℕ) (s : PacketState) (chunk : Bytes)
      → IsOrdered received s
      → find s.pending s.next_seq ≡ some chunk
      → (chunk ≡ message s.next_seq)
        × ((s.next_seq + 1) % u64_values ≡ s.next_seq + 1)
        × IsOrdered received (advanced s)
  advanced-IsOrdered received s chunk o e =
      let (same, there) = o.held s.next_seq chunk e in
      let small = o.within s.next_seq there in
      let next : (s.next_seq + 1) % u64_values ≡ s.next_seq + 1 = omega arith in
      (
        same,
        next,
        record {
          done = λ k h. elim (Bool-cases (s.next_seq == k)) [
            | inl g ↦
                let eq : s.next_seq ≡ k = ground arith in ap (contains received) (sym eq) ∙ there
            | inr g ↦ o.done k (ground (arith, next))
          ];
          held = λ k b p. elim (Bool-cases (s.next_seq == k)) [
            | inl g ↦
                let eq : s.next_seq ≡ k = ground arith in
                let gone =
                  ap (find (erase s.pending s.next_seq)) (sym eq)
                  ∙ find_erased s.pending s.next_seq in
                cc
            | inr g ↦ o.held k b (sym (find_others s.pending s.next_seq k g) ∙ p)
          ];
          kept = λ k c. elim (o.kept k c) [
            | inl l ↦ inl (omega (arith, next))
            | inr p ↦ elim (Bool-cases (s.next_seq == k)) [
              | inl g ↦ inl (ground (arith, next))
              | inr g ↦ inr (find_others s.pending s.next_seq k g ∙ p)
            ]
          ];
          within = o.within;
        },
      )

  contains_more :
      (received : List ℕ) (seq k : ℕ)
      → contains received k ≡ true
      → contains (seq ∷ received) k ≡ true
  contains_more received seq k h = elim (Bool-cases (seq == k)) [
    | inl g ↦ rw g refl
    | inr g ↦ rw g h
  ]

  contains_cases :
      (received : List ℕ) (seq k : ℕ)
      → contains (seq ∷ received) k ≡ true
      → (seq ≡ k) ⊎ ((seq == k) ≡ false) × (contains received k ≡ true)
  contains_cases received seq k h = elim (Bool-cases (seq == k)) [
    | inl g ↦ inl (ground arith)
    | inr g ↦ inr (g, rw g at h)
  ]

  -- A packet whose message was sent before changes nothing.
  pub again-IsOrdered :
      (received : List ℕ) (s : PacketState) (seq : ℕ)
      → seq + 1 < u64_values
      → seq < s.next_seq
      → IsOrdered received s
      → IsOrdered (seq ∷ received) s
  again-IsOrdered received s seq small old o = record {
    done = λ k h. contains_more received seq k (o.done k h);
    held = λ k b e. let (p, q) = o.held k b e in (p, contains_more received seq k q);
    kept = λ k c. elim (contains_cases received seq k c) [
      | inl e ↦ inl (omega arith)
      | inr (_, h) ↦ o.kept k h
    ];
    within = λ k c. elim (contains_cases received seq k c) [
      | inl e ↦ omega arith
      | inr (_, h) ↦ o.within k h
    ];
  }

  abbrev pub inserted : PacketState → ℕ → PacketState
  inserted s seq = record { next_seq = s.next_seq; pending = insert s.pending seq (message seq) }

  find-insert : (p : Pending) (seq : ℕ) → find (insert p seq (message seq)) seq ≡ some (message seq)
  unfolding insert find
  find-insert p seq = ground arith

  find-insert_others :
      (p : Pending) (seq k : ℕ)
      → (seq == k) ≡ false
      → find (insert p seq (message seq)) k ≡ find p k
  unfolding insert find
  find-insert_others p seq k g = rw g (find_others p seq k g)

  pub inserted-IsOrdered :
      (received : List ℕ) (s : PacketState) (seq : ℕ)
      → seq + 1 < u64_values
      → IsOrdered received s
      → IsOrdered (seq ∷ received) (inserted s seq)
  inserted-IsOrdered received s seq small o = record {
    done = λ k h. contains_more received seq k (o.done k h);
    held = λ k b e. elim (Bool-cases (seq == k)) [
      | inl g ↦
          let same : seq ≡ k = ground arith in
          let found =
            ap (find (insert s.pending seq (message seq))) (sym same) ∙ find-insert s.pending seq in
          let named = ap message same in (cc, rw g refl)
      | inr g ↦
          let (p, q) = o.held k b (sym (find-insert_others s.pending seq k g) ∙ e) in
          (p, contains_more received seq k q)
    ];
    kept = λ k c. elim (contains_cases received seq k c) [
      | inl e ↦ inr (
          ap (find (insert s.pending seq (message seq))) (sym e)
          ∙ find-insert s.pending seq
          ∙ ap (λ n. some (message n)) e)
      | inr (g, h) ↦ elim (o.kept k h) [
        | inl l ↦ inl l
        | inr p ↦ inr (find-insert_others s.pending seq k g ∙ p)
      ]
    ];
    within = λ k c. elim (contains_cases received seq k c) [
      | inl e ↦ omega arith
      | inr (_, h) ↦ o.within k h
    ];
  }

  pub start-IsOrdered : IsOrdered [] new
  unfolding new find
  start-IsOrdered = record {
    done = λ k h. absurd (omega arith);
    held = λ k b e. cc;
    kept = λ k c. cc;
    within = λ k c. cc;
  }
