-- ===== src/Transport/Sessions/Handles.antt =====
-- Which requests share a session of session.rs.
use skadi_core.Prelude.{
  ℕ, ◌<◌, ◌≡◌, ◌≢◌, refl, ap, sym, ◌∙◌, false, Bool-cases, inl, inr, List, [], ◌∷◌, All, All-map,
  Option, none, some, arith,
}
use skadi_core.Endpoint.{octets_eq, octets_eq_refl, octets_eq_same}
use skadi_core.Transport.Sessions.{
  Table, XhttpSessionManager, get, erase, created_for, get_or_create, remove,
}

-- The sessions of the table are among those that were created.
abbrev pub IsNumbered : XhttpSessionManager → Type 0
IsNumbered m = All (λ e. e.1 < m.created) m.sessions

get-front : (table : Table) (id : List ℕ) (s : ℕ) → get ((id, s) ∷ table) id ≡ some s
unfolding get
get-front table id s = rw (octets_eq_refl id) refl

get-behind :
    (table : Table) (id other : List ℕ) (s : ℕ)
    → octets_eq id other ≡ false
    → get ((id, s) ∷ table) other ≡ get table other
unfolding get
get-behind table id other s h = rw h refl

get-erase : (table : Table) (id : List ℕ) → get (erase table id) id ≡ none
unfolding get erase
get-erase [] id = refl
get-erase (e ∷ table) id = elim (Bool-cases (octets_eq e.0 id)) [
  | inl p ↦ rw p (get-erase table id)
  | inr p ↦ rw (p, p) (get-erase table id)
]

get-erase_other :
    (table : Table) (id other : List ℕ)
    → octets_eq id other ≡ false
    → get (erase table id) other ≡ get table other
unfolding get erase
get-erase_other [] id other h = refl
get-erase_other (e ∷ table) id other h = elim (Bool-cases (octets_eq e.0 id)) [
  | inl p ↦
      let differs = rw (sym (octets_eq_same e.0 id p)) at h in
      rw (p, differs, get-erase_other table id other h) refl
  | inr p ↦ rw (p, get-erase_other table id other h) refl
]

erase-All :
    (table : Table) (id : List ℕ) (n : ℕ)
    → All (λ e. e.1 < n) table
    → All (λ e. e.1 < n) (erase table id)
unfolding erase
erase-All [] id n h = tt
erase-All (e ∷ table) id n (h, k) = elim (Bool-cases (octets_eq e.0 id)) [
  | inl p ↦ rw p (erase-All table id n k)
  | inr p ↦ rw p (h, erase-All table id n k)
]

get-bound :
    (table : Table) (id : List ℕ) (s n : ℕ)
    → All (λ e. e.1 < n) table
    → get table id ≡ some s
    → s < n
unfolding get
get-bound [] id s n h e = cc
get-bound (x ∷ table) id s n (h, k) e = elim (Bool-cases (octets_eq x.0 id)) [
  | inl p ↦ let same = rw p at e in omega (arith, some_same _ _ same)
  | inr p ↦ get-bound table id s n k (rw p at e)
]
  where
    some_same : (a b : ℕ) → some a ≡ some b → a ≡ b
    some_same a b q = cc

created_lem :
    (m : XhttpSessionManager) (id other : List ℕ) (found : Option ℕ)
    → IsNumbered m
    → get m.sessions id ≡ found
    → octets_eq id other ≡ false
    → let (after, session) = created_for m id found in
      IsNumbered after
      × (get after.sessions id ≡ some session)
      × (get after.sessions other ≡ get m.sessions other)
unfolding created_for
created_lem m id other (some session) n e h = (n, e, refl)
created_lem m id other none n e h = (
  (omega arith, All-map m.sessions (λ x l. omega arith) n),
  get-front m.sessions id m.created,
  get-behind m.sessions id other m.created h,
)

again :
    (m : XhttpSessionManager) (id : List ℕ) (session : ℕ)
    → get m.sessions id ≡ some session
    → get_or_create m id ≡ (m, session)
unfolding get_or_create created_for
again m id session e = ap (created_for m id) e

renewed : (m : XhttpSessionManager) (id : List ℕ) → (get_or_create (remove m id) id).1 ≡ m.created
unfolding get_or_create created_for remove
renewed m id = ap (λ found. (created_for (remove m id) id found).1) (get-erase m.sessions id)

-- The requests of one identifier share a session from the first one until the session is removed, after which they get
-- a new one; the session of another identifier stays what it was, through the request and through the removal,
-- and the table stays numbered.
pub get_or_create_lem :
    (m : XhttpSessionManager) (id other : List ℕ)
    → IsNumbered m
    → octets_eq id other ≡ false
    → let (after, session) = get_or_create m id in
      (get_or_create after id ≡ (after, session))
      × (get after.sessions other ≡ get m.sessions other)
      × (get (remove after id).sessions other ≡ get m.sessions other)
      × ((get_or_create (remove after id) id).1 ≢ session)
      × IsNumbered after
      × IsNumbered (remove after id)
unfolding get_or_create remove
get_or_create_lem m id other n h =
    let (numbered, found, others) = created_lem m id other (get m.sessions id) n refl h in
    let (after, session) = get_or_create m id in
    (
      again after id session found,
      others,
      get-erase_other after.sessions id other h ∙ others,
      (λ e. omega (
        arith,
        get-bound after.sessions id session after.created numbered found,
        renewed after id,
        e,
      )),
      numbered,
      erase-All after.sessions id after.created numbered,
    )
