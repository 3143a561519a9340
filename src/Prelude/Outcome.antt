-- ===== src/Prelude/Outcome.antt =====
-- What a call of a Rust function can do: return, return an error, or panic. A byte slice is a list
-- of numbers; an index or a range past its end panics.
use skadi_core.Prelude.{
  ℕ, ◌-◌, ◌≤◌, ◌<◌, ◌≡◌, ◌≢◌, refl, Bool, true, false, ◌||◌, none, some, List, ◌++◌, arith, ltb,
  if◌then◌else◌, length, get_elem?, take, drop, get_elem?-some, get_elem?_grow, take_grow,
  drop_grow,
}
use skadi_core.Prelude.{length-append, length-drop}

pub data Outcome {ℓ κ} (E : Type ℓ) (A : Type κ) : Type (ℓ ⊔ κ) where
  ok : A → Outcome E A
  err : E → Outcome E A
  panic : Outcome E A

infixl 5 ◌>>=◌ ◌>>◌
abbrev pub ◌>>=◌ {ℓ κ μ} :
    {E : Type ℓ} {A : Type κ} {B : Type μ} → Outcome E A → (A → Outcome E B) → Outcome E B
ok a >>= f = f a
err e >>= f = err e
panic >>= f = panic

abbrev pub ◌>>◌ {ℓ μ} : {E : Type ℓ} {B : Type μ} → Outcome E (Unit {0}) → Outcome E B → Outcome E B
m >> k = m >>= λ _. k

-- `if test { return Err(e) }`
abbrev pub fail_if {ℓ} : {E : Type ℓ} → Bool → E → Outcome E (Unit {0})
fail_if true e = err e
fail_if false e = ok tt

module _ {E : Type 0} where
  -- `xs[i]`
  abbrev pub byte_at : List ℕ → ℕ → Outcome E ℕ
  byte_at xs i = elim (get_elem? xs i) [ none ↦ panic | some b ↦ ok b ]

  -- `&xs[a..b]`
  abbrev pub slice : List ℕ → ℕ → ℕ → Outcome E (List ℕ)
  slice xs a b = if ltb b a || ltb (length xs) b then panic else ok (take (b - a) (drop a xs))

  -- `&xs[a..]`
  abbrev pub slice_from : List ℕ → ℕ → Outcome E (List ℕ)
  slice_from xs a = if ltb (length xs) a then panic else ok (drop a xs)

module _ {E : Type 0} where
  -- An index within the bounds returns.
  pub byte_at_some : (xs : List ℕ) (i : ℕ) → i < length xs → (b : ℕ) × (byte_at {E = E} xs i ≡ ok b)
  byte_at_some xs i h = let (b, e) = get_elem?-some xs i h in (b, rw (e, byte_at))

  pub byte_at_returns : (xs : List ℕ) (i : ℕ) → i < length xs → byte_at {E = E} xs i ≢ panic
  byte_at_returns xs i h = let (b, e) = get_elem?-some xs i h in rw (e, byte_at) (λ p. cc)

  pub slice_some :
      (xs : List ℕ) (a b : ℕ)
      → a ≤ b
      → b ≤ length xs
      → slice {E = E} xs a b ≡ ok (take (b - a) (drop a xs))
  slice_some xs a b h k = ground arith

  -- Bytes behind the end change nothing within the bounds.
  pub byte_at_grow :
      (xs ys : List ℕ) (i : ℕ) → i < length xs → byte_at {E = E} (xs ++ ys) i ≡ byte_at xs i
  byte_at_grow xs ys i h = rw (get_elem?_grow xs ys i h, byte_at)

  pub slice_grow :
      (xs ys : List ℕ) (a b : ℕ)
      → a ≤ b
      → b ≤ length xs
      → slice {E = E} (xs ++ ys) a b ≡ slice xs a b
  slice_grow xs ys a b h k = ground (
    arith,
    length-append xs ys,
    drop_grow a xs ys,
    take_grow (b - a) (drop a xs) ys,
    length-drop a xs,
  )

-- A chain panics only where a part of it does.
pub >>=-ne-panic :
    {E A B : Type 0} (x : Outcome E A) (f : A → Outcome E B)
    → x ≢ panic
    → ((a : A) → x ≡ ok a → f a ≢ panic)
    → (x >>= f) ≢ panic
>>=-ne-panic (ok a) f h k = k a refl
>>=-ne-panic (err e) f h k = λ p. cc
>>=-ne-panic panic f h k = absurd (h refl)

-- A chain returns only where its first part does.
pub >>=-returns :
    {E A B : Type 0} (x : Outcome E A) (f : A → Outcome E B) (b : B)
    → (x >>= f) ≡ ok b
    → (a : A) × (x ≡ ok a) × (f a ≡ ok b)
>>=-returns (ok a) f b e = (a, refl, e)
>>=-returns (err e) f b h = cc
>>=-returns panic f b h = cc
