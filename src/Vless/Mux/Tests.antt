-- ===== src/Vless/Mux/Tests.antt =====
-- Runs of the frame codec of vless/mux/frame.rs, and its theorems at concrete inputs.
use skadi_core.Prelude.{
  ℕ, ◌≡◌, ◌≢◌, ◌≤◌, refl, List, [], ◌∷◌, ◌++◌, arith, length, none, some, true,
}
use skadi_core.Prelude.Bytes.{codes, is_utf8}
use skadi_core.Prelude.Outcome.{ok, err, panic}
use skadi_core.Endpoint.{domain}
use skadi_core.Vless.Mux.{
  MuxMeta, MuxFrame, has_data, session_status_new, session_status_keep_alive, option_data,
  network_udp, too_short, bare_meta, encode_meta, encode_data_frame, encode_end_frame, parse_frame,
}
use skadi_core.Vless.Mux.Safety.{parse_frame_safe}
use skadi_core.Vless.Mux.RoundTrip.{parse_frame-encode, parse_frame-encode_meta}

abbrev xudp_new : MuxMeta
xudp_new = record {
  session_id = 0;
  status = session_status_new;
  option = option_data;
  network = some network_udp;
  target = some (domain (codes "dns.google") 53);
  global_id = some (1 ∷ 2 ∷ 3 ∷ 4 ∷ 5 ∷ 6 ∷ 7 ∷ 8 ∷ []);
}

parse_frame-encode_example :
    (frame : List ℕ) × (encode_data_frame xudp_new (9 ∷ 9 ∷ []) ≡ ok frame)
    × (parse_frame (frame ++ (5 ∷ []))
        ≡ ok (record { meta = xudp_new; payload = some (9 ∷ 9 ∷ []) }, length frame))
unfolding is_utf8 has_data
parse_frame-encode_example =
    parse_frame-encode xudp_new (9 ∷ 9 ∷ []) (5 ∷ [])
      (record {
        session = omega arith;
        carries = ((refl, omega arith, omega arith), omega arith, refl, refl, refl);
      })
      refl (omega arith)

meta_parses :
    parse_frame (encode_meta (bare_meta 7 session_status_keep_alive 0) ++ (5 ∷ []))
    ≡ ok (
      record { meta = bare_meta 7 session_status_keep_alive 0; payload = none },
      length (encode_meta (bare_meta 7 session_status_keep_alive 0)),
    )
unfolding has_data
meta_parses =
    parse_frame-encode_meta (bare_meta 7 session_status_keep_alive 0) (5 ∷ [])
      (record { session = omega arith; carries = tt }) refl

parse_frame_safe_example :
    (parse_frame (encode_end_frame 300 true) ≢ panic)
    × ((frame : MuxFrame) (n : ℕ)
        → parse_frame (encode_end_frame 300 true) ≡ ok (frame, n)
        → n ≤ length (encode_end_frame 300 true))
    × (parse_frame (encode_end_frame 300 true) ≢ err too_short
        → parse_frame (encode_end_frame 300 true ++ (5 ∷ []))
          ≡ parse_frame (encode_end_frame 300 true))
parse_frame_safe_example = parse_frame_safe (encode_end_frame 300 true) (5 ∷ [])
