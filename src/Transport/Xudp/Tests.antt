-- ===== src/Transport/Xudp/Tests.antt =====
-- The table of xudp.rs on concrete operations.
use skadi_core.Prelude.{ℕ, ◌+◌, ◌≡◌, refl, true, List, [], ◌∷◌, none, some, leb, if◌then◌else◌}
use skadi_core.Endpoint.{octets_eq}
use skadi_core.Transport.Xudp.{Entries, get, acquire, xudp_expire_ttl}
use skadi_core.Transport.Xudp.Table.{IsTable}
use skadi_core.Transport.Xudp.Isolation.{
  Operation, acquired, detached, cleaned, fresh, run, watched_all, get-run,
}
use skadi_core.Transport.Xudp.Kept.{answer, detached_kept}

abbrev here : List ℕ
here = 1 ∷ 2 ∷ []

abbrev other : List ℕ
other = 1 ∷ 3 ∷ []

abbrev table : Entries
table = (other, fresh 8) ∷ (here, fresh 7) ∷ []

abbrev ops : List Operation
ops = acquired other (some 9) ∷ detached here 5 ∷ cleaned 6 ∷ []

table-here : get table here ≡ some (fresh 7)
unfolding get octets_eq
table-here = refl

table-IsTable : IsTable table
unfolding get octets_eq
table-IsTable = (refl, (refl, tt))

get-run_example : get (run table ops) here ≡ watched_all here (get table here) ops
get-run_example = get-run table ops here table-IsTable

detached_kept_example :
    (acquire (run table (detached here 5 ∷ cleaned 6 ∷ [])) here (some 9)).socket
    ≡ (if leb (5 + xudp_expire_ttl) 6 then answer (some 9) none else some (7, true))
detached_kept_example =
    detached_kept table here (fresh 7) 5 6 (some 9) table-IsTable table-here refl
