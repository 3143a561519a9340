-- ===== src/Reality/Returns.antt =====
-- The parser of reality/hello_parser.rs on arbitrary data.
use skadi_core.Prelude.{
  ℕ, zero, suc, ◌+◌, ◌≤◌, ◌<◌, ◌≡◌, ◌≢◌, ◌&&◌, not, true, false, List, none, ltb, leb, ◌==◌, length,
  arith, ltb→le,
}
use skadi_core.Prelude.Bytes.{be16}
use skadi_core.Prelude.Outcome.{Outcome, panic, ◌>>=◌, fail_if, byte_at, slice}
use skadi_core.Prelude.Lands.{
  Lands, returns, Lands-ne-panic, Lands-bind, Lands-if, Lands-fail_if, Lands-byte_at, Lands-slice,
}
use skadi_core.Reality.{
  HelloError, Found, sni_loop, parse_sni, key_share_loop, parse_key_share, read_extension,
  is_complete, extensions_loop, parse_extensions, parse_tail, parse_suites, parse_body,
  parse_record, parse_client_hello,
}

abbrev Runs : {A : Type 0} → Outcome HelloError A → Type 0
Runs = Lands (λ _. Unit {0})

leb→le : (a b : ℕ) → leb a b ≡ true → a ≤ b
leb→le a b e = ground arith

leb→lt : (a b : ℕ) → leb a b ≡ false → b < a
leb→lt a b e = ground arith

-- Runs of the parts that all of the code is made of.
byte-Runs :
    {B : Type 0} (xs : List ℕ) (i : ℕ) (f : ℕ → Outcome HelloError B)
    → i < length xs
    → ((b : ℕ) → Runs (f b))
    → Runs (byte_at xs i >>= f)
byte-Runs xs i f h k = Lands-bind (byte_at xs i) f (Lands-byte_at xs i h) λ b _. k b

slice-Runs :
    {B : Type 0} (xs : List ℕ) (a b : ℕ) (f : List ℕ → Outcome HelloError B)
    → a ≤ b
    → b ≤ length xs
    → ((part : List ℕ) → Runs (f part))
    → Runs (slice xs a b >>= f)
slice-Runs xs a b f h g k = Lands-bind (slice xs a b) f (Lands-slice xs a b h g) λ part _. k part

need-Runs :
    {B : Type 0} (a b : ℕ) (e : HelloError) (f : Unit {0} → Outcome HelloError B)
    → (b ≤ a → Runs (f tt))
    → Runs (fail_if (ltb a b) e >>= f)
need-Runs a b e f k =
    Lands-bind (fail_if (ltb a b) e) f (Lands-fail_if (ltb a b) e) λ _ h. k (ltb→le a b h)

more-Runs :
    {B : Type 0} (a b : ℕ) (e : HelloError) (f : Unit {0} → Outcome HelloError B)
    → (b < a → Runs (f tt))
    → Runs (fail_if (leb a b) e >>= f)
more-Runs a b e f k =
    Lands-bind (fail_if (leb a b) e) f (Lands-fail_if (leb a b) e) λ _ h. k (leb→lt a b h)

sni_loop-Runs :
    (ext : List ℕ) (end passes offset : ℕ)
    → end ≤ length ext
    → end ≤ passes + offset
    → Runs (sni_loop ext end passes offset)
unfolding sni_loop
sni_loop-Runs ext end zero offset h k =
    Lands-if (leb (offset + 3) end) _ _ (λ e. absurd (omega (arith, k, leb→le (offset + 3) end e)))
      λ _. returns none tt
sni_loop-Runs ext end (suc passes) offset h k =
    Lands-if (leb (offset + 3) end) _ _
      (λ e.
        let inside = leb→le (offset + 3) end e in
        byte-Runs ext offset _ (omega arith) λ name_type.
          byte-Runs ext (offset + 1) _ (omega arith) λ hi.
            byte-Runs ext (offset + 2) _ (omega arith) λ lo.
              Lands-if (ltb end (offset + 3 + be16 hi lo)) _ _ (λ _. returns none tt)
                λ f.
                  let fits = ltb→le end (offset + 3 + be16 hi lo) f in
                  Lands-if (name_type == 0) _ _
                    (λ _.
                      slice-Runs ext (offset + 3) (offset + 3 + be16 hi lo) _ (omega arith)
                        (omega arith) λ name. returns _ tt)
                    λ _. sni_loop-Runs ext end passes (offset + 3 + be16 hi lo) h (omega arith))
      λ _. returns none tt

key_share_loop-Runs :
    (ext : List ℕ) (end passes offset : ℕ)
    → end ≤ length ext
    → end ≤ passes + offset
    → Runs (key_share_loop ext end passes offset)
unfolding key_share_loop
key_share_loop-Runs ext end zero offset h k =
    Lands-if (leb (offset + 4) end) _ _ (λ e. absurd (omega (arith, k, leb→le (offset + 4) end e)))
      λ _. returns none tt
key_share_loop-Runs ext end (suc passes) offset h k =
    Lands-if (leb (offset + 4) end) _ _
      (λ e.
        let inside = leb→le (offset + 4) end e in
        byte-Runs ext offset _ (omega arith) λ group_hi.
          byte-Runs ext (offset + 1) _ (omega arith) λ group_lo.
            byte-Runs ext (offset + 2) _ (omega arith) λ hi.
              byte-Runs ext (offset + 3) _ (omega arith) λ lo.
                Lands-if (ltb end (offset + 4 + be16 hi lo)) _ _ (λ _. returns none tt)
                  λ f.
                    let fits = ltb→le end (offset + 4 + be16 hi lo) f in
                    Lands-if (be16 group_hi group_lo == 0x001d && be16 hi lo == 32) _ _
                      (λ e.
                        slice-Runs ext (offset + 4) (offset + 4 + 32) _ (omega arith) (ground arith)
                          λ key. returns _ tt)
                      λ _.
                        key_share_loop-Runs ext end passes (offset + 4 + be16 hi lo) h
                          (omega arith))
      λ _. returns none tt

parse_sni-Runs : (ext : List ℕ) → Runs (parse_sni ext)
unfolding parse_sni
parse_sni-Runs ext =
    Lands-if (ltb (length ext) 2) _ _ (λ _. returns none tt)
      λ e.
        let two = ltb→le (length ext) 2 e in
        byte-Runs ext 0 _ (omega arith) λ hi. byte-Runs ext 1 _ (omega arith) λ lo.
          Lands-if (ltb (length ext) (2 + be16 hi lo)) _ _ (λ _. returns none tt)
            λ f.
              let fits = ltb→le (length ext) (2 + be16 hi lo) f in
              sni_loop-Runs ext (2 + be16 hi lo) (length ext) 2 fits (omega arith)

parse_key_share-Runs : (ext : List ℕ) → Runs (parse_key_share ext)
unfolding parse_key_share
parse_key_share-Runs ext =
    Lands-if (ltb (length ext) 2) _ _ (λ _. returns none tt)
      λ e.
        let two = ltb→le (length ext) 2 e in
        byte-Runs ext 0 _ (omega arith) λ hi. byte-Runs ext 1 _ (omega arith) λ lo.
          Lands-if (ltb (length ext) (2 + be16 hi lo)) _ _ (λ _. returns none tt)
            λ f.
              let fits = ltb→le (length ext) (2 + be16 hi lo) f in
              key_share_loop-Runs ext (2 + be16 hi lo) (length ext) 2 fits (omega arith)

read_extension-Runs :
    (ext_type : ℕ) (ext : List ℕ) (found : Found) → Runs (read_extension ext_type ext found)
unfolding read_extension
read_extension-Runs ext_type ext (key, name) =
    Lands-if (ext_type == 0x0000) _ _
      (λ _. Lands-bind (parse_sni ext) _ (parse_sni-Runs ext) λ n _. returns _ tt)
      λ _.
        Lands-if (ext_type == 0x0033) _ _
          (λ _. Lands-bind (parse_key_share ext) _ (parse_key_share-Runs ext) λ n _. returns _ tt)
          λ _. returns _ tt

extensions_loop-Runs :
    (exts : List ℕ) (passes offset : ℕ) (found : Found)
    → length exts ≤ passes + offset
    → Runs (extensions_loop exts passes offset found)
unfolding extensions_loop
extensions_loop-Runs exts zero offset found k =
    Lands-if (leb (offset + 4) (length exts)) _ _
      (λ e. absurd (omega (arith, k, leb→le (offset + 4) (length exts) e))) λ _. returns found tt
extensions_loop-Runs exts (suc passes) offset found k =
    Lands-if (leb (offset + 4) (length exts)) _ _
      (λ e.
        let inside = leb→le (offset + 4) (length exts) e in
        byte-Runs exts offset _ (omega arith) λ type_hi.
          byte-Runs exts (offset + 1) _ (omega arith) λ type_lo.
            byte-Runs exts (offset + 2) _ (omega arith) λ hi.
              byte-Runs exts (offset + 3) _ (omega arith) λ lo.
                Lands-if (ltb (length exts) (offset + 4 + be16 hi lo)) _ _ (λ _. returns found tt)
                  λ f.
                    let fits = ltb→le (length exts) (offset + 4 + be16 hi lo) f in
                    slice-Runs exts (offset + 4) (offset + 4 + be16 hi lo) _ (omega arith) fits
                      λ ext.
                        Lands-bind (read_extension (be16 type_hi type_lo) ext found) _
                          (read_extension-Runs (be16 type_hi type_lo) ext found)
                          λ now _.
                            Lands-if (is_complete now) _ _ (λ _. returns now tt)
                              λ _.
                                extensions_loop-Runs exts passes (offset + 4 + be16 hi lo) now
                                  (omega arith))
      λ _. returns found tt

parse_tail-Runs : (buf random id : List ℕ) (offset : ℕ) → Runs (parse_tail buf random id offset)
unfolding parse_tail parse_extensions
parse_tail-Runs buf random id offset =
    Lands-if (ltb (length buf) (offset + 2)) _ _ (λ _. returns _ tt)
      λ e.
        let two = ltb→le (length buf) (offset + 2) e in
        byte-Runs buf offset _ (omega arith) λ hi. byte-Runs buf (offset + 1) _ (omega arith) λ lo.
          need-Runs (length buf) (offset + 2 + be16 hi lo) _ _ λ h.
            slice-Runs buf (offset + 2) (offset + 2 + be16 hi lo) _ (omega arith) h λ exts.
              Lands-bind (extensions_loop exts (length exts) 0 (none, none)) _
                (extensions_loop-Runs exts (length exts) 0 (none, none) (omega arith))
                λ found _. returns _ tt

parse_suites-Runs : (buf random id : List ℕ) (offset : ℕ) → Runs (parse_suites buf random id offset)
unfolding parse_suites
parse_suites-Runs buf random id offset = need-Runs (length buf) (offset + 2) _ _ λ h.
    byte-Runs buf offset _ (omega arith) λ hi. byte-Runs buf (offset + 1) _ (omega arith) λ lo.
      need-Runs (length buf) (offset + 2 + be16 hi lo) _ _ λ k.
        more-Runs (length buf) (offset + 2 + be16 hi lo) _ _ λ m.
          byte-Runs buf (offset + 2 + be16 hi lo) _ m λ n.
            need-Runs (length buf) (offset + 2 + be16 hi lo + 1 + n) _ _
              λ _. parse_tail-Runs buf random id (offset + 2 + be16 hi lo + 1 + n)

parse_body-Runs : (buf : List ℕ) → Runs (parse_body buf)
unfolding parse_body
parse_body-Runs buf = need-Runs (length buf) 11 _ _ λ _. need-Runs (length buf) 43 _ _ λ h.
    slice-Runs buf 11 43 _ (omega arith) h λ random. more-Runs (length buf) 43 _ _ λ m.
      byte-Runs buf 43 _ m λ n. need-Runs (length buf) (44 + n) _ _ λ k.
        slice-Runs buf 44 (44 + n) _ (omega arith) k λ id. parse_suites-Runs buf random id (44 + n)

-- On any data, cut short or malformed in any way, the parser of the ClientHello returns: no read is out of
-- bounds, and its three loops end.
pub parse_client_hello-ne-panic : (buf : List ℕ) → parse_client_hello buf ≢ panic
unfolding parse_client_hello parse_record
parse_client_hello-ne-panic buf = Lands-ne-panic _ (
    Lands-if (ltb (length buf) 5) _ _ (λ _. returns none tt)
      λ e.
        let five = ltb→le (length buf) 5 e in
        byte-Runs buf 0 _ (omega arith) λ content_type.
          Lands-if (not (content_type == 0x16)) _ _ (λ _. returns none tt)
            λ _. byte-Runs buf 3 _ (omega arith) λ hi. byte-Runs buf 4 _ (omega arith) λ lo.
              Lands-if (ltb (length buf) (5 + be16 hi lo)) _ _ (λ _. returns none tt)
                λ _. need-Runs (length buf) 9 _ _ λ h.
                  byte-Runs buf 5 _ (omega arith) λ handshake_type.
                    Lands-if (not (handshake_type == 0x01)) _ _ (λ _. returns none tt)
                      λ _. parse_body-Runs buf)
