-- ===== src/Transport/Packets/Reassembly.antt =====
-- What the reader of an uplink gets, in whatever order its packets arrive.
use skadi_core.Prelude.{
  ℕ, zero, suc, ◌+◌, ◌<◌, ◌≡◌, refl, sym, ap, ◌∙◌, true, false, Bool-cases, inl, inr, List, [], ◌∷◌,
  All, ltb, arith,
}
use mathlib.Core.Path.{subst⁻¹}
use skadi_core.Transport.Packets.{Bytes, PacketState, new, find, drain, push, u64_values}
use skadi_core.Transport.Packets.Ordered.{
  contains, IsOrdered, advanced-IsOrdered, again-IsOrdered, inserted, inserted-IsOrdered,
  start-IsOrdered,
}
use skadi_core.Transport.Packets.Stops.{
  drain-IsDrained, IsDrained, advanced, drain-none, drain-some, Option-cases,
}

module _ {Q : Type 0} (try_send : Q → Bytes → Q) (message : ℕ → Bytes) where
  -- The state after packets have arrived, the last one at the front of the list, each with the payload of
  -- its number.
  abbrev pub arrived : Q → List ℕ → PacketState × Q
  arrived q [] = (new, q)
  arrived q (seq ∷ earlier) = let (s, r) = arrived q earlier in push try_send s r seq (message seq)

  -- `count` messages from number `from` on, sent in order.
  abbrev pub sent_from : Q → ℕ → ℕ → Q
  sent_from q from zero = q
  sent_from q from (suc count) = sent_from (try_send q (message from)) (from + 1) count

  sent_from-append :
      (q : Q) (from a b : ℕ)
      → sent_from (sent_from q from a) (from + a) b ≡ sent_from q from (a + b)
  sent_from-append q from zero b =
      let e : from + 0 ≡ from = omega arith in
      let f : b ≡ 0 + b = omega arith in ap (λ n. sent_from q n b) e ∙ ap (sent_from q from) f
  sent_from-append q from (suc a) b =
      let e : from + suc a ≡ from + 1 + a = omega arith in
      let f : suc (a + b) ≡ suc a + b = omega arith in
      ap (λ n. sent_from (sent_from (try_send q (message from)) (from + 1) a) n b) e
      ∙ sent_from-append (try_send q (message from)) (from + 1) a b
      ∙ ap (sent_from q from) f

  -- From `s` on, some more messages are sent in order, up to the state `t`.
  abbrev IsAdvance : List ℕ → PacketState → Q → PacketState × Q → Type 0
  IsAdvance received s q (t, r) =
      IsOrdered message received t
      × (n : ℕ) × (t.next_seq ≡ s.next_seq + n)
      × (r ≡ sent_from q s.next_seq n)

  drain-IsAdvance :
      (fuel : ℕ) (received : List ℕ) (s : PacketState) (q : Q)
      → IsOrdered message received s
      → IsAdvance received s q (drain try_send fuel s q)
  unfolding drain
  drain-IsAdvance zero received s q o = (o, 0, omega arith, refl)
  drain-IsAdvance (suc fuel) received s q o = elim (Option-cases (find s.pending s.next_seq)) [
    | inl e ↦
        subst⁻¹ (IsAdvance received s q) (drain-none try_send fuel s q e) (o, 0, omega arith, refl)
    | inr (chunk, e) ↦
        let (same, next, p) = advanced-IsOrdered message received s chunk o e in
        let (ordered, n, at, sent) =
          drain-IsAdvance fuel received (advanced s) (try_send q chunk) p in
        subst⁻¹ (IsAdvance received s q) (drain-some try_send fuel s q chunk e) (
          ordered,
          suc n,
          (omega (arith, at, next)),
          sent
              ∙ ap (λ k. sent_from (try_send q chunk) k n) next
              ∙ ap (λ b. sent_from (try_send q b) (s.next_seq + 1) n) same,
        )
  ]

  push-IsAdvance :
      (received : List ℕ) (s : PacketState) (q : Q) (seq : ℕ)
      → seq + 1 < u64_values
      → IsOrdered message received s
      → IsDrained s
      → IsAdvance (seq ∷ received) s q (push try_send s q seq (message seq))
        × IsDrained (push try_send s q seq (message seq)).0
  unfolding push
  push-IsAdvance received s q seq small o d = elim (Bool-cases (ltb seq s.next_seq)) [
    | inl h ↦
        rw h
          ((again-IsOrdered message received s seq small (ground arith) o, 0, omega arith, refl), d)
    | inr h ↦ rw h (
      drain-IsAdvance _ (seq ∷ received) (inserted message s seq) q
          (inserted-IsOrdered message received s seq small o),
      drain-IsDrained try_send _ (inserted message s seq) q (omega arith),
    )
  ]

  sent_more :
      (q r : Q) (a b c : ℕ) → r ≡ sent_from q 0 a → c ≡ a + b → sent_from r a b ≡ sent_from q 0 c
  sent_more q r a b c e f =
      let zero_a : a ≡ 0 + a = omega arith in
      ap (λ x. sent_from x a b) e
      ∙ ap (λ n. sent_from (sent_from q 0 a) n b) zero_a
      ∙ sent_from-append q 0 a b
      ∙ ap (sent_from q 0) (sym f)

  start-IsDrained : IsDrained new
  unfolding new find
  start-IsDrained = refl

  start-sent : (q : Q) → q ≡ sent_from q 0 new.next_seq
  unfolding new
  start-sent q = refl

  arrived_lem :
      (q : Q) (seqs : List ℕ)
      → All (λ seq. seq + 1 < u64_values) seqs
      → IsOrdered message seqs (arrived q seqs).0
        × IsDrained (arrived q seqs).0
        × ((arrived q seqs).1 ≡ sent_from q 0 (arrived q seqs).0.next_seq)
  arrived_lem q [] h = (start-IsOrdered message, start-IsDrained, start-sent q)
  arrived_lem q (seq ∷ earlier) (small, h) =
      let (o, d, sent) = arrived_lem q earlier h in
      let s = (arrived q earlier).0 in
      let r = (arrived q earlier).1 in
      let ((o_2, m, at_2, sent_2), d_2) = push-IsAdvance earlier s r seq small o d in
      (o_2, d_2, sent_2 ∙ sent_more q r s.next_seq m _ sent at_2)

  -- In whatever order the packets of an uplink arrive, and however often, the reader is sent the messages 0, 1
  -- and so on in their order and each once, as far as all of them have arrived: every number below the next one
  -- to send has arrived, and that one has not.
  pub arrived-ordered :
      (q : Q) (seqs : List ℕ)
      → All (λ seq. seq + 1 < u64_values) seqs
      → (n : ℕ) × ((arrived q seqs).1 ≡ sent_from q 0 n)
        × ((k : ℕ) → k < n → contains seqs k ≡ true)
        × (contains seqs n ≡ false)
  arrived-ordered q seqs h =
      let (o, d, sent) = arrived_lem q seqs h in
      let s = (arrived q seqs).0 in
      (
        s.next_seq,
        sent,
        o.done,
        elim (Bool-cases (contains seqs s.next_seq)) [
          | inl c ↦ elim (o.kept s.next_seq c) [
            | inl l ↦ absurd (omega arith)
            | inr p ↦ let no = sym d ∙ p in cc
          ]
          | inr c ↦ c
        ],
      )
