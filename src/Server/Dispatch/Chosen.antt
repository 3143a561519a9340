-- ===== src/Server/Dispatch/Chosen.antt =====
-- How handle_connection of crates/skadi-server/src/lib.rs begins: the byte that it looks at, and the
-- protocol that it chooses.
use skadi_core.Prelude.{
  ℕ, ◌≡◌, ◌≢◌, ◌⊎◌, refl, sym, ap, ◌∙◌, ◌++◌, inl, inr, Bool, true, false, Bool-cases, List, [],
  ◌∷◌, Option, none, some,
}
use skadi_core.Prelude.Outcome.{Outcome, ok, err, panic}
use skadi_core.Stream.{Conn, map_err}
use skadi_core.Protocol.{
  Protocol, EnabledProtocols, DetectError, needs_sniffing, count, detect, sole,
}
use skadi_core.Protocol.Detect.{detect-ne-panic, sole-ne-none}
use skadi_core.Server.Dispatch.{HandleError, undetected}
use skadi_core.Server.Dispatch.Handle.{read_prefix, choose_protocol}
use skadi_core.Server.Prefixed.{
  prefixed, prefixed-none, prefixed-some, new, poll_all, pending, poll_all-pending,
}

abbrev pub HasProxy : EnabledProtocols → Type 0
HasProxy enabled = (enabled.has_socks5 ≡ true) ⊎ (enabled.has_vless ≡ true)

read_back :
    (sniff : Bool) (input : List ℕ) (writable : Bool) (output : List ℕ) (prefix : Option ℕ)
    (after : Conn)
    → let c : Conn = record { input = input; writable = writable; output = output } in
      read_prefix sniff c ≡ (ok prefix, after) → prefixed after prefix ≡ c
unfolding read_prefix
read_back false input writable output prefix after e =
    let none_read : none ≡ prefix = cc in
    let same : record { input = input; writable = writable; output = output } ≡ after = cc in
    rw (sym none_read, sym same) (prefixed-none _)
read_back true [] writable output prefix after e = cc
read_back true (b ∷ rest) writable output prefix after e =
    let read : some b ≡ prefix = cc in
    let same : record { input = rest; writable = writable; output = output } ≡ after = cc in
    rw (sym read, sym same) (prefixed-some _ b)

unsniffed :
    (c after : Conn) (prefix : Option ℕ)
    → read_prefix false c ≡ (ok prefix, after)
    → (prefix ≡ none) × (after ≡ c)
unfolding read_prefix
unsniffed c after prefix e = (cc, cc)

sniffed :
    (input : List ℕ) (writable : Bool) (output : List ℕ) (prefix : Option ℕ) (after : Conn)
    → read_prefix true (record { input = input; writable = writable; output = output })
      ≡ (ok prefix, after)
    → prefix ≢ none
unfolding read_prefix
sniffed [] writable output prefix after e = cc
sniffed (b ∷ rest) writable output prefix after e = λ p. cc

undetected-ne-panic : (r : Outcome DetectError Protocol) → r ≢ panic → map_err undetected r ≢ panic
undetected-ne-panic (ok a) h = λ p. cc
undetected-ne-panic (err e) h = λ p. cc
undetected-ne-panic panic h = absurd (h refl)

sole_chosen :
    (x : Option Protocol)
    → x ≢ none
    → (elim x as (λ _. Outcome HandleError Protocol) [ none ↦ panic | some p ↦ ok p ]) ≢ panic
sole_chosen none h = absurd (h refl)
sole_chosen (some p) h = λ q. cc

byte_chosen :
    (enabled : EnabledProtocols) (prefix : Option ℕ)
    → prefix ≢ none
    → (elim prefix as (λ _. Outcome HandleError Protocol) [
      | none ↦ panic
      | some byte ↦ map_err undetected (detect enabled byte)
    ])
      ≢ panic
byte_chosen enabled none h = absurd (h refl)
byte_chosen enabled (some byte) h =
    undetected-ne-panic (detect enabled byte) (detect-ne-panic enabled byte)

both_enabled :
    (has_socks5 has_vless : Bool)
    → needs_sniffing (record { has_socks5 = has_socks5; has_vless = has_vless }) ≡ true
    → (has_socks5 ≡ true) × (has_vless ≡ true)
unfolding needs_sniffing count
both_enabled true true e = (refl, refl)
both_enabled true false e = cc
both_enabled false true e = cc
both_enabled false false e = cc

-- A byte is read ahead exactly where both protocols are enabled.
abbrev pub ReadsAhead : EnabledProtocols → Conn → Conn → Option ℕ → Type 0
ReadsAhead enabled c after prefix =
    ((prefix ≡ none) × (after ≡ c))
    ⊎ ((prefix ≢ none) × (enabled.has_socks5 ≡ true) × (enabled.has_vless ≡ true))

reads_ahead :
    (enabled : EnabledProtocols) (c after : Conn) (prefix : Option ℕ) (sniff : Bool)
    → needs_sniffing enabled ≡ sniff
    → read_prefix sniff c ≡ (ok prefix, after)
    → ReadsAhead enabled c after prefix
reads_ahead enabled c after prefix false n e = inl (unsniffed c after prefix e)
reads_ahead enabled c after prefix true n e =
    let (socks, vless) = both_enabled enabled.has_socks5 enabled.has_vless n in
    inr (sniffed c.input c.writable c.output prefix after e, socks, vless)

-- Where a protocol is enabled: a byte is read ahead only if both are, else the connection is left as it is;
-- however the handshake reads, it gets the bytes of the connection in their order, that byte first; and
-- neither `expect` on the way to a protocol panics.
pub choose_protocol-read_prefix :
    (enabled : EnabledProtocols) (c after : Conn) (prefix : Option ℕ) (reads : List (ℕ × ℕ))
    → HasProxy enabled
    → read_prefix (needs_sniffing enabled) c ≡ (ok prefix, after)
    → ReadsAhead enabled c after prefix
      × (let (bytes, last) = poll_all (new after prefix) reads in bytes ++ pending last ≡ c.input)
      × (choose_protocol enabled prefix ≢ panic)
unfolding choose_protocol
choose_protocol-read_prefix enabled c after prefix reads h e = (
  reads_ahead enabled c after prefix (needs_sniffing enabled) refl e,
  poll_all-pending (new after prefix) reads
      ∙ ap (λ d. d.input)
          (read_back (needs_sniffing enabled) c.input c.writable c.output prefix after e),
  elim (Bool-cases (needs_sniffing enabled)) [
    | inl n ↦
        rw n (
          byte_chosen enabled prefix (sniffed c.input c.writable c.output prefix after (rw n at e)))
    | inr n ↦ rw n (sole_chosen (sole enabled) (sole-ne-none enabled h n))
  ],
)
