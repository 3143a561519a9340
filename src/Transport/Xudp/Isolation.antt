-- ===== src/Transport/Xudp/Isolation.antt =====
-- The table of xudp.rs, one identifier at a time.
use skadi_core.Prelude.{
  ℕ, ◌≡◌, ◌⊎◌, refl, sym, ap, ◌∙◌, Bool, true, Bool-cases, inl, inr, List, [], ◌∷◌, Option, none,
  some, if◌then◌else◌,
}
use skadi_core.Endpoint.{octets_eq, octets_eq_same}
use skadi_core.Transport.Xudp.{
  active, XudpEntry, Entries, get, set, hit, expire, with_reader, acquire, acquire_found, detach,
  detach_found, register_reader, register_found, cleanup_expired,
}
use skadi_core.Transport.Xudp.Table.{
  IsTable, get_front, get_behind, get-set, get-set_others, set-IsTable, unexpired, get-cleanup,
  cleanup-IsTable,
}

pub data Operation : Type 0 where
  acquired : List ℕ → Option ℕ → Operation
  detached : List ℕ → ℕ → Operation
  registered : List ℕ → ℕ → Operation
  cleaned : ℕ → Operation

abbrev pub apply : Entries → Operation → Entries
apply entries (acquired id bind) = (acquire entries id bind).entries
apply entries (detached id now) = (detach entries id now).0
apply entries (registered id reader) = register_reader entries id reader
apply entries (cleaned now) = (cleanup_expired entries now).0

-- The entry of a socket that was just bound.
abbrev pub fresh : ℕ → XudpEntry
fresh socket = record { socket = socket; status = active; expire_at = none; reader_abort = none }

-- What an operation on the identifier itself makes of its entry, `none` where there is none.
abbrev pub changed : Option XudpEntry → Operation → Option XudpEntry
changed none (acquired _ none) = none
changed none (acquired _ (some socket)) = some (fresh socket)
changed (some x) (acquired _ _) = some (hit x).1
changed none (detached _ now) = none
changed (some x) (detached _ now) = some (expire now x).1
changed none (registered _ reader) = none
changed (some x) (registered _ reader) = some (with_reader x reader)
changed x (cleaned now) = unexpired now x

-- Which identifier an operation is on; a cleanup is on all.
abbrev pub concerns : Operation → List ℕ → Bool
concerns (acquired id _) other = octets_eq id other
concerns (detached id _) other = octets_eq id other
concerns (registered id _) other = octets_eq id other
concerns (cleaned _) other = true

abbrev pub watched : List ℕ → Option XudpEntry → Operation → Option XudpEntry
watched id x op = if concerns op id then changed x op else x

Option-cases : {A : Type 0} (x : Option A) → (x ≡ none) ⊎ ((a : A) × (x ≡ some a))
Option-cases none = inl refl
Option-cases (some a) = inr (a, refl)

-- The table after an operation, at one identifier.
abbrev IsStep : Entries → Operation → Entries → Type 0
IsStep entries op after =
    IsTable after × ((id : List ℕ) → get after id ≡ watched id (get entries id) op)

-- An operation that replaces the entry of one identifier.
set-IsStep :
    (entries : Entries) (id : List ℕ) (old x : XudpEntry) (op : Operation)
    → IsTable entries
    → get entries id ≡ some old
    → ((other : List ℕ) → concerns op other ≡ octets_eq id other)
    → changed (some old) op ≡ some x
    → IsStep entries op (set entries id x)
set-IsStep entries id old x op t e c h = (
  set-IsTable entries id x t,
  λ other. elim (Bool-cases (octets_eq id other)) [
    | inl p ↦
        let same = octets_eq_same id other p in
        ap (get (set entries id x)) (sym same)
        ∙ get-set entries id old x e
        ∙ sym (rw (c other, p) (ap (λ y. changed y op) (ap (get entries) (sym same) ∙ e) ∙ h))
    | inr p ↦ get-set_others entries id other x p ∙ sym (rw (c other, p) refl)
  ],
)

-- An operation on an identifier that the table does not have.
none-IsStep :
    (entries : Entries) (id : List ℕ) (op : Operation)
    → IsTable entries
    → get entries id ≡ none
    → ((other : List ℕ) → concerns op other ≡ octets_eq id other)
    → changed none op ≡ none
    → IsStep entries op entries
none-IsStep entries id op t e c h = (
  t,
  λ other. elim (Bool-cases (octets_eq id other)) [
    | inl p ↦
        let same = ap (get entries) (sym (octets_eq_same id other p)) ∙ e in
        same ∙ sym (rw (c other, p) (ap (λ y. changed y op) same ∙ h))
    | inr p ↦ sym (rw (c other, p) refl)
  ],
)

detach-IsStep :
    (entries : Entries) (id : List ℕ) (now : ℕ) (found : Option XudpEntry)
    → IsTable entries
    → get entries id ≡ found
    → IsStep entries (detached id now) (detach_found entries id now found).0
unfolding detach_found
detach-IsStep entries id now none t e =
    none-IsStep entries id (detached id now) t e (λ _. refl) refl
detach-IsStep entries id now (some x) t e =
    set-IsStep entries id x _ (detached id now) t e (λ _. refl) refl

register-IsStep :
    (entries : Entries) (id : List ℕ) (reader : ℕ) (found : Option XudpEntry)
    → IsTable entries
    → get entries id ≡ found
    → IsStep entries (registered id reader) (register_found entries id reader found)
unfolding register_found
register-IsStep entries id reader none t e =
    none-IsStep entries id (registered id reader) t e (λ _. refl) refl
register-IsStep entries id reader (some x) t e =
    set-IsStep entries id x _ (registered id reader) t e (λ _. refl) refl

new-IsStep :
    (entries : Entries) (id : List ℕ) (socket : ℕ)
    → IsTable entries
    → get entries id ≡ none
    → IsStep entries (acquired id (some socket)) ((id, fresh socket) ∷ entries)
new-IsStep entries id socket t e =
    let x : XudpEntry = fresh socket in
    (
      (e, t),
      λ other. elim (Bool-cases (octets_eq id other)) [
        | inl p ↦
            let same = octets_eq_same id other p in
            ap (get ((id, x) ∷ entries)) (sym same)
            ∙ get_front entries id x
            ∙ sym (
                rw p (
                  ap (λ y. changed y (acquired id (some socket)))
                    (ap (get entries) (sym same) ∙ e)))
        | inr p ↦ get_behind entries id other x p ∙ sym (rw p refl)
      ],
    )

acquire-IsStep :
    (entries : Entries) (id : List ℕ) (bind : Option ℕ) (found : Option XudpEntry)
    → IsTable entries
    → get entries id ≡ found
    → IsStep entries (acquired id bind) (acquire_found entries id bind found).entries
unfolding acquire_found
acquire-IsStep entries id none none t e =
    none-IsStep entries id (acquired id none) t e (λ _. refl) refl
acquire-IsStep entries id (some socket) none t e = new-IsStep entries id socket t e
acquire-IsStep entries id bind (some x) t e =
    set-IsStep entries id x _ (acquired id bind) t e (λ _. refl) refl

apply-IsStep :
    (entries : Entries) (op : Operation) → IsTable entries → IsStep entries op (apply entries op)
unfolding acquire detach register_reader
apply-IsStep entries (acquired id bind) t = acquire-IsStep entries id bind (get entries id) t refl
apply-IsStep entries (detached id now) t = detach-IsStep entries id now (get entries id) t refl
apply-IsStep entries (registered id reader) t =
    register-IsStep entries id reader (get entries id) t refl
apply-IsStep entries (cleaned now) t =
    (cleanup-IsTable entries now t, λ other. get-cleanup entries other now t)

-- The operations one after another, on the table and on the entry of one identifier.
abbrev pub run : Entries → List Operation → Entries
run entries [] = entries
run entries (op ∷ ops) = run (apply entries op) ops

abbrev pub watched_all : List ℕ → Option XudpEntry → List Operation → Option XudpEntry
watched_all id x [] = x
watched_all id x (op ∷ ops) = watched_all id (watched id x op) ops

-- Whatever operations are run on a table, its entry of an identifier is what the operations on that identifier and
-- the cleanups make of it alone: sessions do not touch each other's sockets.
pub get-run :
    (entries : Entries) (ops : List Operation) (id : List ℕ)
    → IsTable entries
    → get (run entries ops) id ≡ watched_all id (get entries id) ops
get-run entries [] id t = refl
get-run entries (op ∷ ops) id t =
    let (u, step) = apply-IsStep entries op t in
    get-run (apply entries op) ops id u ∙ ap (λ x. watched_all id x ops) (step id)
