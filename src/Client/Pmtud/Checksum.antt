-- ===== src/Client/Pmtud/Checksum.antt =====
-- The internet checksum of pmtud.rs.
use skadi_core.Prelude.{
  ℕ, suc, ◌+◌, ◌-◌, ◌*◌, ◌/◌, ◌%◌, ◌<◌, ◌≡◌, inl, inr, refl, ap, ◌∙◌, Bool-cases, ◌==◌, List, [],
  ◌∷◌, ◌++◌, length, arith,
}
use skadi_core.Prelude.Bytes.{to_be16, be16-to_be16}
use skadi_core.Client.Pmtud.{sum_words, fold_carry, internet_checksum}

-- What folding a sum leaves of it: a 16-bit number, which differs from it by a multiple of 65535, and which
-- is 0 for 0 alone.
abbrev pub IsFolded : ℕ → ℕ → Type 0
IsFolded sum r = (r < 65536) × ((k : ℕ) × (sum ≡ r + k * 65535)) × (0 < sum → 0 < r)

fold_step :
    (fuel sum : ℕ)
    → IsFolded (sum % 65536 + sum / 65536) (fold_carry fuel (sum % 65536 + sum / 65536))
    → IsFolded sum (fold_carry (suc fuel) sum)
unfolding fold_carry
fold_step fuel sum (h, (k, e), p) = elim (Bool-cases (sum / 65536 == 0)) [
  | inl q ↦ rw q (ground arith, (0, omega arith), λ s. s)
  | inr q ↦ rw q (h, (k + sum / 65536, omega arith), λ s. p (omega arith))
]

fold_last : (sum : ℕ) → sum < 65536 → IsFolded sum (fold_carry 0 sum)
unfolding fold_carry
fold_last sum h = (h, (0, omega arith), λ p. p)

-- A 32-bit sum is folded in three passes.
pub fold_carry-IsFolded : (sum : ℕ) → sum < 4294967296 → IsFolded sum (fold_carry 3 sum)
fold_carry-IsFolded sum h =
    let once = sum % 65536 + sum / 65536 in
    let twice = once % 65536 + once / 65536 in
    fold_step 2 sum (fold_step 1 once (fold_step 0 twice (fold_last _ (omega arith))))

sum_words-append :
    (k : ℕ) (front back : List ℕ)
    → length front ≡ 2 * k
    → sum_words (front ++ back) ≡ sum_words front + sum_words back
unfolding sum_words
sum_words-append k [] back h = omega arith
sum_words-append k (a ∷ []) back h = absurd (omega arith)
sum_words-append k (a ∷ b ∷ front) back h =
    omega (arith, sum_words-append (k - 1) front back (omega arith))

sum_words-to_be16 :
    (w : ℕ) (back : List ℕ) → w < 65536 → sum_words (to_be16 w ++ back) ≡ w + sum_words back
unfolding sum_words
sum_words-to_be16 w back h = omega (arith, be16-to_be16 w h)

-- Adding the complement of a folded sum gives a sum that folds to 65535.
complement_lem :
    (sum : ℕ)
    → sum + 65535 < 4294967296
    → fold_carry 3 (sum + (65535 - fold_carry 3 sum % 65536)) ≡ 65535
complement_lem sum h =
    let (small, (k, e), pos) = fold_carry-IsFolded sum (omega arith) in
    let (small_2, (l, f), pos_2) =
      fold_carry-IsFolded (sum + (65535 - fold_carry 3 sum % 65536)) (omega arith) in
    let some_sum : 0 < sum + (65535 - fold_carry 3 sum % 65536) = omega arith in
    let pos_3 = pos_2 some_sum in omega arith

-- The checksum of a message, put into its zeroed field, makes the checksum of the message 0.
pub internet_checksum_verifies :
    (k : ℕ) (front back : List ℕ)
    → length front ≡ 2 * k
    → sum_words (front ++ (0 ∷ 0 ∷ back)) + 65535 < 4294967296
    → internet_checksum (front ++ (to_be16 (internet_checksum (front ++ (0 ∷ 0 ∷ back))) ++ back))
      ≡ 0
unfolding internet_checksum
internet_checksum_verifies k front back h small =
    let zeroed =
      sum_words-append k front (0 ∷ 0 ∷ back) h
      ∙ ap (λ n. sum_words front + n) (sum_words-to_be16 0 back (omega arith)) in
    let sum = sum_words (front ++ (0 ∷ 0 ∷ back)) in
    let c = 65535 - fold_carry 3 sum % 65536 in
    let filled : sum_words (front ++ (to_be16 c ++ back)) ≡ sum + c = omega (
      arith,
      zeroed,
      sum_words-append k front (to_be16 c ++ back) h,
      sum_words-to_be16 c back (omega arith),
    ) in
    rw (filled, complement_lem sum small) refl
