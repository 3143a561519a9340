-- ===== src/Vless/Mux/Safety.antt =====
-- The parsers of vless/mux/frame.rs on arbitrary input.
use skadi_core.Prelude.{
  ℕ, ◌+◌, ◌≤◌, ◌<◌, ◌≡◌, ◌≢◌, refl, ltb, Bool, true, false, List, ◌++◌, Option, none, some, arith,
  length, drop, in_bounds, Bool-cases, inl, inr, le→ltb, ltb→le, if◌then◌else◌,
}
use skadi_core.Prelude.Bytes.{be16}
use skadi_core.Prelude.Outcome.{Outcome, ok, err, panic, byte_at_some, >>=-ne-panic}
use skadi_core.Incremental.{IsSound}
use skadi_core.Incremental.Rules.{
  Grows, same, Grows-settled, Grows-less, Grows-byte, Grows-slice, Grows-step, Grows-fail,
  IsSound-less, IsSound-byte, IsSound-slice, IsSound-step, IsSound-fail, IsSound-lower,
}
use skadi_core.Vless.Request.{ParseError, parse_port_address}
use skadi_core.Vless.Request.Bounds.{parse_port_address-ne-panic}
use skadi_core.Vless.Mux.{
  MuxError, MuxMeta, MuxFrame, too_short, meta_too_large, chunk_too_large, max_meta_len,
  max_chunk_size, map_address, needs_target, parse_global_id, parse_meta_target, parse_meta_body,
  bare_meta, has_data, parse_chunk, parse_frame,
}

-- A frame that is cut short asks for more, by an unknown amount.
abbrev waits : MuxError → Option ℕ
waits too_short = some 1
waits _ = none

needs_target-ne-panic : (body : List ℕ) (status : ℕ) → needs_target body status ≢ panic
unfolding needs_target
needs_target-ne-panic body status = grind (arith, in_bounds)

needs_target_long :
    (body : List ℕ) (status : ℕ) → needs_target body status ≡ ok true → 4 < length body
unfolding needs_target
needs_target_long body status e = grind (arith, in_bounds)

parse_global_id-ne-panic :
    (body : List ℕ) (status network offset : ℕ) → parse_global_id body status network offset ≢ panic
unfolding parse_global_id
parse_global_id-ne-panic body status network offset = grind arith

map_address-ne-panic : {A : Type 0} (r : Outcome ParseError A) → r ≢ panic → map_address r ≢ panic
map_address-ne-panic (ok a) h = λ p. cc
map_address-ne-panic (err e) h = λ p. cc
map_address-ne-panic panic h = absurd (h refl)

parse_meta_target-ne-panic :
    (body : List ℕ) (session_id status option : ℕ)
    → 4 < length body
    → parse_meta_target body session_id status option ≢ panic
unfolding parse_meta_target
parse_meta_target-ne-panic body session_id status option h =
    let (b, e) = byte_at_some {E = MuxError} body 4 h in
    rw (e, le→ltb (length body) 5 h)
      (>>=-ne-panic (map_address (parse_port_address (drop 5 body))) _
        (map_address-ne-panic _ (parse_port_address-ne-panic (drop 5 body)))
        λ (endpoint, consumed) _.
          >>=-ne-panic (parse_global_id body status b (5 + consumed)) _
            (parse_global_id-ne-panic body status b (5 + consumed)) λ id _ p. cc)

parse_meta_body-ne-panic : (body : List ℕ) → parse_meta_body body ≢ panic
unfolding parse_meta_body
parse_meta_body-ne-panic body = elim (Bool-cases (ltb (length body) 4)) [
  | inl few ↦ rw few (λ p. cc)
  | inr enough ↦
      let four = ltb→le (length body) 4 enough in
      let (hi, e) = byte_at_some {E = MuxError} body 0 (omega arith) in
      let (lo, f) = byte_at_some {E = MuxError} body 1 (omega arith) in
      let (status, g) = byte_at_some {E = MuxError} body 2 (omega arith) in
      let (option, h) = byte_at_some {E = MuxError} body 3 four in
      rw (enough, e, f, g, h)
        (>>=-ne-panic (needs_target body status) _ (needs_target-ne-panic body status)
          λ wants w. choose wants (be16 hi lo) status option w)
]
  where
    choose :
        (wants : Bool) (session_id status option : ℕ)
        → needs_target body status ≡ ok wants
        → (if wants
            then parse_meta_target body session_id status option
            else ok (bare_meta session_id status option))
          ≢ panic
    choose true session_id status option w =
        parse_meta_target-ne-panic body session_id status option (needs_target_long body status w)
    choose false session_id status option w = λ p. cc

parse_chunk-IsSound :
    (input : List ℕ) (meta : MuxMeta) (meta_end : ℕ)
    → meta_end ≤ length input
    → IsSound waits (length input) 0 meta_end (length input) (parse_chunk input meta meta_end)
unfolding parse_chunk
parse_chunk-IsSound input meta meta_end h = grind (arith, in_bounds)

parse_chunk-Grows :
    (input more : List ℕ) (meta : MuxMeta) (meta_end : ℕ)
    → Grows waits 1 (parse_chunk input meta meta_end) (parse_chunk (input ++ more) meta meta_end)
unfolding parse_chunk
parse_chunk-Grows input more meta meta_end = elim (Bool-cases (has_data meta)) [
  | inl e ↦ rw e (
      Grows-less input more (meta_end + 2) too_short _ _ (omega arith) (omega arith) λ h.
        Grows-byte input more meta_end _ _ (omega arith) λ hi _.
          Grows-byte input more (meta_end + 1) _ _ (omega arith) λ lo _.
            let chunk_len = be16 hi lo in
            Grows-fail (ltb max_chunk_size chunk_len) (chunk_too_large chunk_len) _ _ λ _.
              Grows-less input more (meta_end + 2 + chunk_len) too_short _ _ (omega arith)
                (omega arith)
                λ k.
                  Grows-slice input more (meta_end + 2) (meta_end + 2 + chunk_len) _ _ (omega arith)
                    k λ chunk _. same refl)
  | inr e ↦ rw e (same refl)
]

parse_frame-IsSound :
    (input : List ℕ) → IsSound waits (length input) 0 2 (length input) (parse_frame input)
unfolding parse_frame
parse_frame-IsSound input = IsSound-less input 2 too_short _ (omega arith) λ h.
    IsSound-byte input 0 _ (omega arith) λ hi _. IsSound-byte input 1 _ h λ lo _.
      let meta_len = be16 hi lo in
      IsSound-fail input (ltb max_meta_len meta_len) (meta_too_large meta_len) _ refl λ _.
        IsSound-less input (2 + meta_len) too_short _ (omega arith) λ k.
          IsSound-slice input 2 (2 + meta_len) _ (omega arith) k λ body.
            IsSound-step input (parse_meta_body body) _ (parse_meta_body-ne-panic body)
              (omega arith)
              λ meta _.
                IsSound-lower (2 + meta_len) 2 _ (omega arith)
                  (parse_chunk-IsSound input meta (2 + meta_len) k)

parse_frame-Grows :
    (input more : List ℕ) → Grows waits 1 (parse_frame input) (parse_frame (input ++ more))
unfolding parse_frame
parse_frame-Grows input more =
    Grows-less input more 2 too_short _ _ (omega arith) (omega arith) λ h.
      Grows-byte input more 0 _ _ (omega arith) λ hi _. Grows-byte input more 1 _ _ h λ lo _.
        let meta_len = be16 hi lo in
        Grows-fail (ltb max_meta_len meta_len) (meta_too_large meta_len) _ _ λ _.
          Grows-less input more (2 + meta_len) too_short _ _ (omega arith) (omega arith) λ k.
            Grows-slice input more 2 (2 + meta_len) _ _ (omega arith) k λ body _.
              Grows-step (parse_meta_body body) _ _
                λ meta _. parse_chunk-Grows input more meta (2 + meta_len)

settled_of :
    {A : Type 0} (r s : Outcome MuxError (A × ℕ)) → Grows waits 1 r s → r ≢ err too_short → s ≡ r
settled_of (ok a) s g h = Grows-settled _ _ g refl
settled_of (err too_short) s g h = absurd (h refl)
settled_of (err e) s g h = Grows-settled _ _ g refl
settled_of panic s g h = Grows-settled _ _ g refl

-- `parse_frame` never panics, a frame ends within the input, and any answer but `TooShort` stays the
-- same whatever bytes follow.
pub parse_frame_safe :
    (input more : List ℕ)
    → (parse_frame input ≢ panic)
      × ((frame : MuxFrame) (n : ℕ) → parse_frame input ≡ ok (frame, n) → n ≤ length input)
      × (parse_frame input ≢ err too_short → parse_frame (input ++ more) ≡ parse_frame input)
parse_frame_safe input more = (
  sound.no_panic,
  (λ frame n e. omega (arith, sound.ends frame n e)),
  settled_of _ _ (parse_frame-Grows input more),
)
  where
    sound : IsSound waits (length input) 0 2 (length input) (parse_frame input)
    sound = parse_frame-IsSound input
