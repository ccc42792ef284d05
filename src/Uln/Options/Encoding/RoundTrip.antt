-- ===== src/Uln/Options/Encoding/RoundTrip.antt =====
-- Options of type 3 that are written are read back: `decode_options` against their encoding.
use mathlib.Core.List.{append_assoc, append-nil}
use mathlib.Core.Path.{fun_ext, ap₂}
use lz_v2_audit.Prelude.{
  ℕ, zero, suc, ◌+◌, ◌^◌, ◌≤◌, ◌<◌, ◌≡◌, ◌∙◌, refl, sym, ap, List, [], ◌∷◌, ◌++◌, length,
  length-append, All, some, ok, arith, lt→ltb, le→ltb_false, nat_eq,
}
use lz_v2_audit.Bytes.{be_bytes, range, to_u8, to_u16}
use lz_v2_audit.Bytes.Laws.{length-be_bytes, to_uint-first, to_uint-skip, to_u8-skip, range-append}
use lz_v2_audit.Worker.{LzOption}
use lz_v2_audit.Uln.Options.{
  DvnOptions, no_dvn_options, type_3, Decoding, push_dvn_option, decode_executor_option,
  decode_dvn_option, decode_worker_option, decode_worker_options, decode_options,
}
use lz_v2_audit.Uln.Options.Encoding.{
  WorkerOption, to_executor, to_dvn, option_bytes, worker_id, encode_option, encode_options,
  for_executor, for_dvn, unless_empty, extend, pushed, pushed_all, pushed_all-executor,
  pushed_all-dvn,
}

executor_body :
    (before : List ℕ) (o : LzOption) (rest : List ℕ) (cursor : ℕ) (d : Decoding)
    → cursor ≡ length before
    → decode_executor_option
        (before ++ (option_bytes (to_executor o) ++ rest))
        cursor
        (length (option_bytes (to_executor o)))
        d
      ≡ ok (record d {
        cursor = cursor + length (option_bytes (to_executor o));
        executor_options = d.executor_options ++ (o ∷ []);
      })
unfolding decode_executor_option option_bytes to_u8
executor_body before o rest cursor d e = rw (type_read, params_read) refl
  where
    type_read : to_u8 (before ++ (o.option_type ∷ o.params ++ rest)) cursor ≡ ok o.option_type
    type_read = to_u8-skip before _ cursor 0 (omega arith)

    params_read :
        range
          (cursor + 1)
          (cursor + suc (length o.params))
          (before ++ (o.option_type ∷ o.params ++ rest))
        ≡ ok o.params
    params_read = rw (append_assoc before (o.option_type ∷ []) (o.params ++ rest)) at (
        range-append (before ++ (o.option_type ∷ [])) o.params rest (cursor + 1)
          (cursor + suc (length o.params))
          (omega (arith, length-append before (o.option_type ∷ [])))
          (omega (arith, length-append before (o.option_type ∷ []))))

dvn_body :
    (before : List ℕ) (idx : ℕ) (o : LzOption) (rest : List ℕ) (cursor : ℕ) (d : Decoding)
    → cursor ≡ length before
    → decode_dvn_option
        (before ++ (option_bytes (to_dvn idx o) ++ rest))
        cursor
        (length (option_bytes (to_dvn idx o)))
        d
      ≡ ok (record d {
        cursor = cursor + length (option_bytes (to_dvn idx o));
        dvn_options = push_dvn_option idx o d.dvn_options;
      })
unfolding decode_dvn_option option_bytes to_u8
dvn_body before idx o rest cursor d e = rw (idx_read, type_read, params_read) refl
  where
    idx_read : to_u8 (before ++ (idx ∷ o.option_type ∷ o.params ++ rest)) cursor ≡ ok idx
    idx_read = to_u8-skip before _ cursor 0 (omega arith)

    type_read :
        to_u8 (before ++ (idx ∷ o.option_type ∷ o.params ++ rest)) (cursor + 1) ≡ ok o.option_type
    type_read = to_u8-skip before _ (cursor + 1) 1 (omega arith)

    params_read :
        range
          (cursor + 2)
          (cursor + suc (suc (length o.params)))
          (before ++ (idx ∷ o.option_type ∷ o.params ++ rest))
        ≡ ok o.params
    params_read = rw (append_assoc before (idx ∷ o.option_type ∷ []) (o.params ++ rest)) at (
        range-append (before ++ (idx ∷ o.option_type ∷ [])) o.params rest (cursor + 2)
          (cursor + suc (suc (length o.params)))
          (omega (arith, length-append before (idx ∷ o.option_type ∷ [])))
          (omega (arith, length-append before (idx ∷ o.option_type ∷ []))))

-- Reading behind the bytes that are read already.
module _ (before : List ℕ) (w : WorkerOption) (rest : List ℕ) (d : Decoding)
    (e : d.cursor ≡ length before) where
  abbrev bytes : List ℕ
  bytes = before ++ (encode_option w ++ rest)

  id_read : to_u8 bytes d.cursor ≡ ok (worker_id w)
  unfolding to_u8
  id_read = to_u8-skip before _ d.cursor 0 (omega arith)

  size_read :
      length (option_bytes w) < 2 ^ 16 → to_u16 bytes (d.cursor + 1) ≡ ok (length (option_bytes w))
  size_read h =
      to_uint-skip before _ 2 (d.cursor + 1) 1 (omega arith)
      ∙ to_uint-skip (worker_id w ∷ [])
          (be_bytes 2 (length (option_bytes w)) ++ option_bytes w ++ rest) 2 1 0 (omega arith)
      ∙ rw (append_assoc (be_bytes 2 (length (option_bytes w))) (option_bytes w) rest)
          (to_uint-first 2 _ _ h)

  body_bytes :
      bytes
      ≡ (before ++ (worker_id w ∷ be_bytes 2 (length (option_bytes w)))) ++ (option_bytes w ++ rest)
  body_bytes = simp append_assoc

  body_cursor :
      d.cursor + 1 + 2 ≡ length (before ++ (worker_id w ∷ be_bytes 2 (length (option_bytes w))))
  body_cursor = omega (
    arith,
    length-append before (worker_id w ∷ be_bytes 2 (length (option_bytes w))),
    length-be_bytes 2 (length (option_bytes w)),
  )

  length-option : length (encode_option w) ≡ 1 + 2 + length (option_bytes w)
  length-option = omega (
    arith,
    length-append (be_bytes 2 (length (option_bytes w))) (option_bytes w),
    length-be_bytes 2 (length (option_bytes w)),
  )

-- A round of the loop reads the option that the cursor stands before.
round :
    (before : List ℕ) (w : WorkerOption) (rest : List ℕ) (d : Decoding)
    → d.cursor ≡ length before
    → length (option_bytes w) < 2 ^ 16
    → decode_worker_option (before ++ (encode_option w ++ rest)) d ≡ ok (pushed w d)
unfolding decode_worker_option worker_id pushed
round before (to_executor o) rest d e h =
    rw
      (
        id_read before (to_executor o) rest d e,
        size_read before (to_executor o) rest d e h,
        body_bytes before (to_executor o) rest d e,
        executor_body _ o rest _ d (body_cursor before (to_executor o) rest d e),
      )
      (ap
        (λ (n : ℕ). ok (record d { cursor = n; executor_options = d.executor_options ++ (o ∷ []) }))
        (omega (arith, length-option before (to_executor o) rest d e)))
round before (to_dvn idx o) rest d e h =
    rw
      (
        id_read before (to_dvn idx o) rest d e,
        size_read before (to_dvn idx o) rest d e h,
        body_bytes before (to_dvn idx o) rest d e,
        dvn_body _ idx o rest _ d (body_cursor before (to_dvn idx o) rest d e),
      )
      (ap
        (λ (n : ℕ). ok (record d { cursor = n; dvn_options = push_dvn_option idx o d.dvn_options }))
        (omega (arith, length-option before (to_dvn idx o) rest d e)))

pushed-cursor :
    (w : WorkerOption) (d : Decoding) → (pushed w d).cursor ≡ d.cursor + length (encode_option w)
unfolding pushed
pushed-cursor (to_executor o) d = refl
pushed-cursor (to_dvn idx o) d = refl

-- Each option fits its size in two bytes.
abbrev pub IsSized : List WorkerOption → Type 0
IsSized = All (λ w. length (option_bytes w) < 2 ^ 16)

turn :
    (fuel : ℕ) (options : List ℕ) (d d' : Decoding)
    → d.cursor < length options
    → decode_worker_option options d ≡ ok d'
    → decode_worker_options (suc fuel) options d ≡ decode_worker_options fuel options d'
unfolding decode_worker_options
turn fuel options d d' more e = rw (lt→ltb d.cursor (length options) more, e) refl

loop :
    (fuel : ℕ) (before : List ℕ) (ws : List WorkerOption) (d : Decoding)
    → d.cursor ≡ length before
    → length (encode_options ws) ≤ fuel
    → IsSized ws
    → decode_worker_options (suc fuel) (before ++ encode_options ws) d ≡ some (ok (pushed_all ws d))
unfolding decode_worker_options encode_options pushed_all
loop fuel before [] d e f s =
    rw (append-nil before, le→ltb_false d.cursor (length before) (omega arith)) refl
loop zero before (w ∷ ws) d e f s = absurd (omega arith)
loop (suc fuel) before (w ∷ ws) d e f s =
    turn (suc fuel) _ d (pushed w d) more (round before w (encode_options ws) d e s.0)
    ∙ ap (λ (bytes : List ℕ). decode_worker_options (suc fuel) bytes (pushed w d))
        (sym (append_assoc before (encode_option w) (encode_options ws)))
    ∙ loop fuel (before ++ encode_option w) ws (pushed w d)
        (omega (arith, pushed-cursor w d, length-append before (encode_option w)))
        (omega (arith, length-append (encode_option w) (encode_options ws))) s.1
  where
    more : d.cursor < length (before ++ (encode_option w ++ encode_options ws))
    more = omega (
      arith,
      length-append before (encode_option w ++ encode_options ws),
      length-append (encode_option w) (encode_options ws),
    )

-- Options of type 3 that were written for the executor and for DVNs, each with a size below 2 ^ 16,
-- are decoded to the executor's options and to each DVN's, all in the order in which they were
-- written; a DVN for which none was written has no entry.
pub decode-encode_options :
    (ws : List WorkerOption)
    → IsSized ws
    → decode_options (be_bytes 2 type_3 ++ encode_options ws)
      ≡ ok (for_executor ws, λ idx. unless_empty (for_dvn idx ws))
unfolding decode_options extend
decode-encode_options ws s =
    rw
      (
        to_uint-first 2 type_3 (encode_options ws) (omega arith),
        loop _ (be_bytes 2 type_3) ws start (sym (length-be_bytes 2 type_3)) fits s,
      )
      (ap₂ (λ (l : List LzOption) (m : DvnOptions). ok (l, m)) (pushed_all-executor ws start)
        (fun_ext (λ j. pushed_all-dvn ws start j)))
  where
    start : Decoding
    start = record { cursor = 2; executor_options = []; dvn_options = no_dvn_options }

    fits : length (encode_options ws) ≤ length (be_bytes 2 type_3 ++ encode_options ws)
    fits = omega (arith, length-append (be_bytes 2 type_3) (encode_options ws))
