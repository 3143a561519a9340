-- ===== src/Prelude/Lists.antt =====
-- Lists measured and indexed by native numbers, under the library's names.
use Prim.Native.Nat.{ℕ, zero, suc, ◌+◌, ◌-◌, ◌≤◌, ◌<◌, min}
use mathlib.Core.Path.{◌≡◌, refl, sym, ap, ◌∙◌}
use mathlib.Core.List.{List, [], ◌∷◌, ◌++◌}
use mathlib.Core.Option.{Option, none, some}
use mathlib.Core.Logic.{◌≢◌}
use native.Mathlib.Nat.{zero-add, suc-add}
use native.Mathlib.Omega.{arith}

module _ {ℓ} {A : Type ℓ} where
  abbrev pub length : List A → ℕ
  length [] = 0
  length (x ∷ xs) = suc (length xs)

  abbrev pub get_elem? : List A → ℕ → Option A
  get_elem? [] i = none
  get_elem? (x ∷ xs) zero = some x
  get_elem? (x ∷ xs) (suc i) = get_elem? xs i

  abbrev pub take : ℕ → List A → List A
  take zero xs = []
  take (suc n) [] = []
  take (suc n) (x ∷ xs) = x ∷ take n xs

  abbrev pub drop : ℕ → List A → List A
  drop zero xs = xs
  drop (suc n) [] = []
  drop (suc n) (x ∷ xs) = drop n xs

  abbrev pub All {κ} : (A → Type κ) → List A → Type κ
  All P [] = Unit {κ}
  All P (x ∷ xs) = P x × All P xs

module _ {ℓ} {A : Type ℓ} where
  pub length-append : (xs ys : List A) → length (xs ++ ys) ≡ length xs + length ys
  length-append [] ys = omega arith
  length-append (x ∷ xs) ys = omega (arith, length-append xs ys)

  pub length-take : (n : ℕ) (xs : List A) → length (take n xs) ≡ min n (length xs)
  length-take zero xs = omega arith
  length-take (suc n) [] = omega arith
  length-take (suc n) (x ∷ xs) = omega (arith, length-take n xs)

  pub length-drop : (n : ℕ) (xs : List A) → length (drop n xs) ≡ length xs - n
  length-drop zero xs = omega arith
  length-drop (suc n) [] = omega arith
  length-drop (suc n) (x ∷ xs) = omega (arith, length-drop n xs)

  pub drop-append : (xs ys : List A) → drop (length xs) (xs ++ ys) ≡ ys
  drop-append [] ys = refl
  drop-append (x ∷ xs) ys = drop-append xs ys

  pub take-append : (xs ys : List A) → take (length xs) (xs ++ ys) ≡ xs
  take-append [] ys = refl
  take-append (x ∷ xs) ys = ap (◌∷◌ x) (take-append xs ys)

  pub take-all : (n : ℕ) (xs : List A) → length xs ≤ n → take n xs ≡ xs
  take-all zero [] h = refl
  take-all zero (x ∷ xs) h = absurd (omega arith)
  take-all (suc n) [] h = refl
  take-all (suc n) (x ∷ xs) h = ap (◌∷◌ x) (take-all n xs (omega arith))

  pub get_elem?-append : (xs ys : List A) (y : A) → get_elem? (xs ++ (y ∷ ys)) (length xs) ≡ some y
  get_elem?-append [] ys y = refl
  get_elem?-append (x ∷ xs) ys y = get_elem?-append xs ys y

  pub get_elem?-some : (xs : List A) (i : ℕ) → i < length xs → (x : A) × (get_elem? xs i ≡ some x)
  get_elem?-some [] i h = elim h [ ]
  get_elem?-some (x ∷ xs) zero h = (x, refl)
  get_elem?-some (x ∷ xs) (suc i) h = get_elem?-some xs i (omega arith)

  -- What a list holds within its bounds does not depend on what follows it.
  pub get_elem?_grow :
      (xs ys : List A) (i : ℕ) → i < length xs → get_elem? (xs ++ ys) i ≡ get_elem? xs i
  get_elem?_grow [] ys i h = elim h [ ]
  get_elem?_grow (x ∷ xs) ys zero h = refl
  get_elem?_grow (x ∷ xs) ys (suc i) h = get_elem?_grow xs ys i (omega arith)

  pub take_grow : (n : ℕ) (xs ys : List A) → n ≤ length xs → take n (xs ++ ys) ≡ take n xs
  take_grow zero xs ys h = refl
  take_grow (suc n) [] ys h = absurd (omega arith)
  take_grow (suc n) (x ∷ xs) ys h = ap (◌∷◌ x) (take_grow n xs ys (omega arith))

  pub drop_grow : (n : ℕ) (xs ys : List A) → n ≤ length xs → drop n (xs ++ ys) ≡ drop n xs ++ ys
  drop_grow zero xs ys h = refl
  drop_grow (suc n) [] ys h = absurd (omega arith)
  drop_grow (suc n) (x ∷ xs) ys h = drop_grow n xs ys (omega arith)

-- A read within the bounds finds a number.
pub in_bounds : (xs : List ℕ) (i : ℕ) → i < length xs → get_elem? xs i ≢ none
in_bounds [] i h = elim h [ ]
in_bounds (x ∷ xs) zero h = λ e. cc
in_bounds (x ∷ xs) (suc i) h = in_bounds xs i (omega arith)

-- So is a range within the bounds the same with more behind it.
pub range_grow {ℓ} :
    {A : Type ℓ} (xs ys : List A) (a n : ℕ)
    → a + n ≤ length xs
    → take n (drop a (xs ++ ys)) ≡ take n (drop a xs)
range_grow xs ys a n h =
    ap (take n) (drop_grow a xs ys (omega arith))
    ∙ take_grow n (drop a xs) ys (omega (arith, length-drop a xs))

-- The parts of a list that is written as one part after another, at a position known by an equation.
module _ {ℓ} {A : Type ℓ} where
  pub take_front : (n : ℕ) (xs ys : List A) → length xs ≡ n → take n (xs ++ ys) ≡ xs
  take_front zero [] ys h = refl
  take_front zero (x ∷ xs) ys h = absurd (omega arith)
  take_front (suc n) [] ys h = absurd (omega arith)
  take_front (suc n) (x ∷ xs) ys h = ap (◌∷◌ x) (take_front n xs ys (omega arith))

  pub drop_front : (n : ℕ) (xs ys : List A) → length xs ≡ n → drop n (xs ++ ys) ≡ ys
  drop_front zero [] ys h = refl
  drop_front zero (x ∷ xs) ys h = absurd (omega arith)
  drop_front (suc n) [] ys h = absurd (omega arith)
  drop_front (suc n) (x ∷ xs) ys h = drop_front n xs ys (omega arith)

  pub get_elem?_behind :
      (n i : ℕ) (xs ys : List A) → length xs ≡ n → get_elem? (xs ++ ys) (n + i) ≡ get_elem? ys i
  get_elem?_behind zero i [] ys h = rw zero-add
  get_elem?_behind zero i (x ∷ xs) ys h = absurd (omega arith)
  get_elem?_behind (suc n) i [] ys h = absurd (omega arith)
  get_elem?_behind (suc n) i (x ∷ xs) ys h = rw suc-add (get_elem?_behind n i xs ys (omega arith))

  pub drop_behind : (n i : ℕ) (xs ys : List A) → length xs ≡ n → drop (n + i) (xs ++ ys) ≡ drop i ys
  drop_behind zero i [] ys h = rw zero-add
  drop_behind zero i (x ∷ xs) ys h = absurd (omega arith)
  drop_behind (suc n) i [] ys h = absurd (omega arith)
  drop_behind (suc n) i (x ∷ xs) ys h = rw suc-add (drop_behind n i xs ys (omega arith))

  pub All-map {κ μ} :
      {P : A → Type κ} {Q : A → Type μ} (xs : List A) → ((x : A) → P x → Q x) → All P xs → All Q xs
  All-map [] f h = tt
  All-map (x ∷ xs) f (h, k) = (f x h, All-map xs f k)

  pub take-drop : (n : ℕ) (xs : List A) → take n xs ++ drop n xs ≡ xs
  take-drop zero xs = refl
  take-drop (suc n) [] = refl
  take-drop (suc n) (x ∷ xs) = ap (◌∷◌ x) (take-drop n xs)

  pub drop-drop : (m n : ℕ) (xs : List A) → drop m (drop n xs) ≡ drop (n + m) xs
  drop-drop m zero xs = rw zero-add refl
  drop-drop zero (suc n) [] = rw suc-add refl
  drop-drop (suc m) (suc n) [] = rw suc-add refl
  drop-drop m (suc n) (x ∷ xs) = rw suc-add (drop-drop m n xs)

  pub take_more : (m n : ℕ) (xs : List A) → take m xs ++ take n (drop m xs) ≡ take (m + n) xs
  take_more zero n xs = rw zero-add refl
  take_more (suc m) zero [] = rw suc-add refl
  take_more (suc m) (suc n) [] = rw suc-add refl
  take_more (suc m) n (x ∷ xs) = rw suc-add (ap (◌∷◌ x) (take_more m n xs))

  pub get_elem?-take : (i n : ℕ) (xs : List A) → i < n → get_elem? (take n xs) i ≡ get_elem? xs i
  get_elem?-take i zero xs h = elim h [ ]
  get_elem?-take i (suc n) [] h = refl
  get_elem?-take zero (suc n) (x ∷ xs) h = refl
  get_elem?-take (suc i) (suc n) (x ∷ xs) h = get_elem?-take i n xs (omega arith)

  get_elem?_nil : (i : ℕ) → get_elem? {A = A} [] i ≡ none
  get_elem?_nil zero = refl
  get_elem?_nil (suc i) = refl

  pub get_elem?-drop : (i n : ℕ) (xs : List A) → get_elem? (drop n xs) i ≡ get_elem? xs (n + i)
  get_elem?-drop i zero xs = rw zero-add refl
  get_elem?-drop i (suc n) [] = get_elem?_nil i ∙ sym (get_elem?_nil (suc n + i))
  get_elem?-drop i (suc n) (x ∷ xs) = rw suc-add (get_elem?-drop i n xs)
