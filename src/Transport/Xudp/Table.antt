-- ===== src/Transport/Xudp/Table.antt =====
-- The table of xudp.rs as a map.
use skadi_core.Prelude.{
  ℕ, ◌≡◌, refl, sym, ap, ◌∙◌, false, Bool-cases, inl, inr, List, [], ◌∷◌, Option, none, some,
  if◌then◌else◌,
}
use skadi_core.Endpoint.{octets_eq, octets_eq_same, octets_eq_refl}
use skadi_core.Transport.Xudp.{XudpEntry, Entries, get, set, is_expired, cleanup_expired}

-- No identifier stands in the table twice.
abbrev pub IsTable : Entries → Type 0
IsTable [] = Unit {0}
IsTable (e ∷ entries) = (get entries e.0 ≡ none) × IsTable entries

pub get_front :
    (entries : Entries) (id : List ℕ) (x : XudpEntry) → get ((id, x) ∷ entries) id ≡ some x
unfolding get
get_front entries id x = rw (octets_eq_refl id) refl

pub get_behind :
    (entries : Entries) (id other : List ℕ) (x : XudpEntry)
    → octets_eq id other ≡ false
    → get ((id, x) ∷ entries) other ≡ get entries other
unfolding get
get_behind entries id other x h = rw h refl

pub get-set :
    (entries : Entries) (id : List ℕ) (old x : XudpEntry)
    → get entries id ≡ some old
    → get (set entries id x) id ≡ some x
unfolding get set
get-set [] id old x h = cc
get-set (e ∷ entries) id old x h = elim (Bool-cases (octets_eq e.0 id)) [
  | inl p ↦ rw (p, octets_eq_refl id) refl
  | inr p ↦ rw (p, p) (get-set entries id old x (rw p at h))
]

pub get-set_others :
    (entries : Entries) (id other : List ℕ) (x : XudpEntry)
    → octets_eq id other ≡ false
    → get (set entries id x) other ≡ get entries other
unfolding get set
get-set_others [] id other x h = refl
get-set_others (e ∷ entries) id other x h = elim (Bool-cases (octets_eq e.0 id)) [
  | inl p ↦
      let q : octets_eq e.0 other ≡ false = rw (octets_eq_same e.0 id p) h in rw (p, h, q) refl
  | inr p ↦ elim (Bool-cases (octets_eq e.0 other)) [
    | inl q ↦ rw (p, q) refl
    | inr q ↦ rw (p, q) (get-set_others entries id other x h)
  ]
]

pub set-IsTable :
    (entries : Entries) (id : List ℕ) (x : XudpEntry) → IsTable entries → IsTable (set entries id x)
unfolding set
set-IsTable [] id x t = tt
set-IsTable (e ∷ entries) id x (f, t) = elim (Bool-cases (octets_eq e.0 id)) [
  | inl p ↦ rw p (ap (get entries) (sym (octets_eq_same e.0 id p)) ∙ f, t)
  | inr p ↦ rw p (get-set_others entries id e.0 x (swap e.0 id p) ∙ f, set-IsTable entries id x t)
]
  where
    swap : (a b : List ℕ) → octets_eq a b ≡ false → octets_eq b a ≡ false
    swap a b h = elim (Bool-cases (octets_eq b a)) [
      | inl e ↦ let same = octets_eq_same b a e in let yes = octets_eq_refl a in cc
      | inr e ↦ e
    ]

get-cleanup_none :
    (entries : Entries) (id : List ℕ) (now : ℕ)
    → get entries id ≡ none
    → get (cleanup_expired entries now).0 id ≡ none
unfolding get cleanup_expired
get-cleanup_none [] id now h = refl
get-cleanup_none (e ∷ entries) id now h = elim (Bool-cases (octets_eq e.0 id)) [
  | inl p ↦ let no = rw p at h in cc
  | inr p ↦ elim (Bool-cases (is_expired now e.1)) [
    | inl q ↦ rw q (get-cleanup_none entries id now (rw p at h))
    | inr q ↦ rw (q, p) (get-cleanup_none entries id now (rw p at h))
  ]
]

pub cleanup-IsTable :
    (entries : Entries) (now : ℕ) → IsTable entries → IsTable (cleanup_expired entries now).0
unfolding cleanup_expired
cleanup-IsTable [] now t = tt
cleanup-IsTable (e ∷ entries) now (f, t) = elim (Bool-cases (is_expired now e.1)) [
  | inl q ↦ rw q (cleanup-IsTable entries now t)
  | inr q ↦ rw q (get-cleanup_none entries e.0 now f, cleanup-IsTable entries now t)
]

-- What `cleanup_expired` leaves of an entry.
abbrev pub unexpired : ℕ → Option XudpEntry → Option XudpEntry
unexpired now none = none
unexpired now (some x) = if is_expired now x then none else some x

pub get-cleanup :
    (entries : Entries) (id : List ℕ) (now : ℕ)
    → IsTable entries
    → get (cleanup_expired entries now).0 id ≡ unexpired now (get entries id)
unfolding get cleanup_expired
get-cleanup [] id now t = refl
get-cleanup (e ∷ entries) id now (f, t) = elim (Bool-cases (octets_eq e.0 id)) [
  | inl p ↦ elim (Bool-cases (is_expired now e.1)) [
    | inl q ↦
        rw (q, p, q)
          (get-cleanup_none entries id now (ap (get entries) (sym (octets_eq_same e.0 id p)) ∙ f))
    | inr q ↦ rw (q, p, q) refl
  ]
  | inr p ↦ elim (Bool-cases (is_expired now e.1)) [
    | inl q ↦ rw (q, p) (get-cleanup entries id now t)
    | inr q ↦ rw (q, p) (get-cleanup entries id now t)
  ]
]
