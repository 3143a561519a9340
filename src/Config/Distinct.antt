-- ===== src/Config/Distinct.antt =====
-- The checks for duplicates of crates/skadi-config/src/lib.rs: what a scan with the values seen so far
-- finds, whatever the order in which they came.
use skadi_core.Prelude.{
  ◌≡◌, ◌≢◌, ◌↔◌, refl, Bool, true, false, Bool-cases, inl, inr, List, [], ◌∷◌, All, arith,
}
use skadi_core.Endpoint.{octets_eq, octets_eq_same, octets_eq_refl, ip_eq, ip_eq_same, ip_eq_refl}
use skadi_core.Config.Common.{ParsedAddr, addr_eq}
use skadi_core.Config.Checks.{member}

-- No two places of the list hold the same value.
abbrev pub IsDistinct : {A : Type 0} → List A → Type 0
IsDistinct [] = Unit {0}
IsDistinct (x ∷ xs) = All (λ y. x ≢ y) xs × IsDistinct xs

-- A Boolean test of equality.
pub record IsEq {A : Type 0} (eq : A → A → Bool) : Type 0 where
  pub same : (x y : A) → eq x y ≡ true → x ≡ y
  pub reflexive : (x : A) → eq x x ≡ true

pub octets_eq-IsEq : IsEq octets_eq
octets_eq-IsEq = record { same = octets_eq_same; reflexive = octets_eq_refl }

addr_eq_parts :
    (x y : ParsedAddr)
    → addr_eq x y ≡ true
    → (ip_eq x.ip y.ip ≡ true)
      × (x.port ≡ y.port)
      × (x.flowinfo ≡ y.flowinfo)
      × (x.scope_id ≡ y.scope_id)
unfolding addr_eq
addr_eq_parts x y e = ground arith

addr_eq_same : (x y : ParsedAddr) → addr_eq x y ≡ true → x ≡ y
addr_eq_same x y e = let (i, p, f, s) = addr_eq_parts x y e in let j = ip_eq_same x.ip y.ip i in cc

addr_eq_refl : (x : ParsedAddr) → addr_eq x x ≡ true
unfolding addr_eq
addr_eq_refl x = ground (arith, ip_eq_refl x.ip)

pub addr_eq-IsEq : IsEq addr_eq
addr_eq-IsEq = record { same = addr_eq_same; reflexive = addr_eq_refl }

module _ {A : Type 0} (eq : A → A → Bool) where
  -- What the scan tests: no value has been seen when its turn comes.
  abbrev pub IsFresh : List A → List A → Type 0
  IsFresh seen [] = Unit {0}
  IsFresh seen (x ∷ xs) = (member eq x seen ≡ false) × IsFresh (x ∷ seen) xs

  abbrev pub AreUnseen : List A → List A → Type 0
  AreUnseen seen xs = All (λ y. member eq y seen ≡ false) xs

  member-cons :
      (y x : A) (seen : List A)
      → member eq y (x ∷ seen) ≡ false
      → (eq y x ≡ false) × (member eq y seen ≡ false)
  unfolding member
  member-cons y x seen h = ground arith

  cons-member :
      (y x : A) (seen : List A)
      → eq y x ≡ false
      → member eq y seen ≡ false
      → member eq y (x ∷ seen) ≡ false
  unfolding member
  cons-member y x seen h k = ground arith

  differ : IsEq eq → (y x : A) → eq y x ≡ false → x ≢ y
  differ law y x h = λ p. let yes = law.reflexive y in cc

  differs : IsEq eq → (y x : A) → x ≢ y → eq y x ≡ false
  differs law y x h = elim (Bool-cases (eq y x)) [
    | inl e ↦ let p = law.same y x e in absurd (h cc)
    | inr e ↦ e
  ]

  unseen-cons :
      IsEq eq
      → (x : A) (seen xs : List A) → AreUnseen (x ∷ seen) xs
      → All (λ y. x ≢ y) xs × AreUnseen seen xs
  unseen-cons law x seen [] h = (tt, tt)
  unseen-cons law x seen (y ∷ ys) (h, hs) =
      let (d, m) = member-cons y x seen h in
      let (ds, ms) = unseen-cons law x seen ys hs in ((differ law y x d, ds), (m, ms))

  cons-unseen :
      IsEq eq
      → (x : A) (seen xs : List A) → All (λ y. x ≢ y) xs
      → AreUnseen seen xs
      → AreUnseen (x ∷ seen) xs
  cons-unseen law x seen [] d h = tt
  cons-unseen law x seen (y ∷ ys) (d, ds) (h, hs) =
      (cons-member y x seen (differs law y x d) h, cons-unseen law x seen ys ds hs)

  IsFresh-apart : IsEq eq → (seen xs : List A) → IsFresh seen xs → AreUnseen seen xs × IsDistinct xs
  IsFresh-apart law seen [] h = (tt, tt)
  IsFresh-apart law seen (x ∷ xs) (h, hs) =
      let (u, d) = IsFresh-apart law (x ∷ seen) xs hs in
      let (a, v) = unseen-cons law x seen xs u in ((h, v), (a, d))

  apart-IsFresh : IsEq eq → (seen xs : List A) → AreUnseen seen xs → IsDistinct xs → IsFresh seen xs
  apart-IsFresh law seen [] u d = tt
  apart-IsFresh law seen (x ∷ xs) (h, hs) (a, d) =
      (h, apart-IsFresh law (x ∷ seen) xs (cons-unseen law x seen xs a hs) d)

  none-seen : (xs : List A) → AreUnseen [] xs
  unfolding member
  none-seen [] = tt
  none-seen (x ∷ xs) = (refl, none-seen xs)

  -- A scan that starts with nothing seen finds a duplicate exactly where there is one.
  pub IsFresh-IsDistinct : IsEq eq → (xs : List A) → IsFresh [] xs ↔ IsDistinct xs
  IsFresh-IsDistinct law xs =
      ((λ h. (IsFresh-apart law [] xs h).1), λ d. apart-IsFresh law [] xs (none-seen xs) d)
