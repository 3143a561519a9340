-- ===== src/Endpoint/Policy/Resolved.antt =====
-- The checks of endpoint.rs on a literal address and on the addresses that a name resolved to.
use skadi_core.Prelude.{
  ◌≡◌, refl, Bool, true, false, List, [], ◌∷◌, ◌++◌, All, ◌⊎◌, inl, inr, Bool-cases, ap,
}
use skadi_core.Prelude.Outcome.{ok, err}
use skadi_core.Endpoint.{SocketAddr, ip}
use skadi_core.Endpoint.Policy.{
  forbidden_destination, is_forbidden_ip, validate_outbound_literal, check_addrs,
  validate_resolved_addrs,
}

abbrev pub IsPermitted : SocketAddr → Type 0
IsPermitted addr = is_forbidden_ip addr.ip ≡ false

-- The first address of the list that the policy refuses.
pub record IsFirstForbidden (addrs : List SocketAddr) (addr : SocketAddr) : Type 0 where
  pub before : List SocketAddr
  pub after : List SocketAddr
  pub split : addrs ≡ before ++ (addr ∷ after)
  pub permitted : All IsPermitted before
  pub forbidden : is_forbidden_ip addr.ip ≡ true

check_addrs_lem :
    (addrs : List SocketAddr)
    → ((check_addrs addrs ≡ ok tt) × All IsPermitted addrs)
      ⊎ ((addr : SocketAddr) × (check_addrs addrs ≡ err (forbidden_destination addr))
          × IsFirstForbidden addrs addr)
unfolding check_addrs
check_addrs_lem [] = inl (refl, tt)
check_addrs_lem (addr ∷ addrs) = elim (Bool-cases (is_forbidden_ip addr.ip)) [
  | inl e ↦ inr (
    addr,
    rw e refl,
    record { before = []; after = addrs; split = refl; permitted = tt; forbidden = e },
  )
  | inr e ↦ rw e (elim (check_addrs_lem addrs) [
    | inl (f, all) ↦ inl (f, (refl, all))
    | inr (found, f, first) ↦ inr (
      found,
      f,
      record {
        before = addr ∷ first.before;
        after = first.after;
        split = ap (◌∷◌ addr) first.split;
        permitted = (e, first.permitted);
        forbidden = first.forbidden;
      },
    )
  ])
]

literal :
    (addr : SocketAddr) (allow : Bool)
    → validate_outbound_literal (ip addr) allow ≡ validate_resolved_addrs (addr ∷ []) allow
unfolding validate_outbound_literal validate_resolved_addrs check_addrs
literal addr true = refl
literal addr false = refl

-- Unless private addresses are allowed, the check of the resolved addresses returns exactly when the policy
-- permits every one of them, and otherwise names the first one that it refuses; when they are allowed it
-- always returns. A literal address is checked like a name that resolves to that one address.
pub validate_resolved_addrs_lem :
    (addrs : List SocketAddr)
    → (((validate_resolved_addrs addrs false ≡ ok tt) × All IsPermitted addrs)
        ⊎ ((addr : SocketAddr) × (validate_resolved_addrs addrs false
              ≡ err (forbidden_destination addr))
            × IsFirstForbidden addrs addr))
      × (validate_resolved_addrs addrs true ≡ ok tt)
      × ((addr : SocketAddr) (allow : Bool)
          → validate_outbound_literal (ip addr) allow ≡ validate_resolved_addrs (addr ∷ []) allow)
unfolding validate_resolved_addrs
validate_resolved_addrs_lem addrs = (check_addrs_lem addrs, refl, literal)
