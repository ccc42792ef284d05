-- ===== src/Uln/Options/Encoding.antt =====
-- Options of type 3 as the senders write them, and what the loop of `decode_options` collects of them.
pub mod RoundTrip
use mathlib.Core.List.{append_assoc, append-nil}
use mathlib.Core.Path.{fun_ext, ap₂}
use lz_v2_audit.Prelude.{
  ℕ, zero, suc, ◌+◌, ◌-◌, ◌^◌, ◌≤◌, ◌<◌, ◌≡◌, ◌∙◌, refl, sym, ap, List, [], ◌∷◌, ◌++◌, length,
  length-append, All, Option, Option-cases, none, some, ok, ◌==◌, if◌then◌else◌, arith, Bool-cases,
  inl, inr, lt→ltb, le→ltb_false, write, nat_eq,
}
use lz_v2_audit.Bytes.{be_bytes, range, to_u8, to_u16}
use lz_v2_audit.Bytes.Laws.{length-be_bytes, to_uint-first, to_uint-skip, to_u8-skip, range-append}
use lz_v2_audit.Worker.{LzOption}
use lz_v2_audit.Uln.Options.{
  DvnOptions, no_dvn_options, type_3, executor_worker_id, dvn_worker_id, Decoding, push_dvn_option,
  decode_executor_option, decode_dvn_option, decode_worker_option, decode_worker_options,
  decode_options,
}

-- An option and the worker it is for: the executor, or a DVN by its index.
pub data WorkerOption : Type 0 where
  to_executor : LzOption → WorkerOption
  to_dvn : (idx : ℕ) → LzOption → WorkerOption

-- The bytes of one option behind its worker's id and its size.
unfoldable pub option_bytes : WorkerOption → List ℕ
option_bytes (to_executor o) = o.option_type ∷ o.params
option_bytes (to_dvn idx o) = idx ∷ o.option_type ∷ o.params

unfoldable pub worker_id : WorkerOption → ℕ
worker_id (to_executor o) = executor_worker_id
worker_id (to_dvn idx o) = dvn_worker_id

abbrev pub encode_option : WorkerOption → List ℕ
encode_option w = worker_id w ∷ (be_bytes 2 (length (option_bytes w)) ++ option_bytes w)

unfoldable pub encode_options : List WorkerOption → List ℕ
encode_options [] = []
encode_options (w ∷ ws) = encode_option w ++ encode_options ws

-- The options of the executor, and those of one DVN, in their order.
unfoldable pub for_executor : List WorkerOption → List LzOption
for_executor [] = []
for_executor (to_executor o ∷ ws) = o ∷ for_executor ws
for_executor (to_dvn idx o ∷ ws) = for_executor ws

unfoldable pub for_dvn : ℕ → List WorkerOption → List LzOption
for_dvn j [] = []
for_dvn j (to_executor o ∷ ws) = for_dvn j ws
for_dvn j (to_dvn idx o ∷ ws) = if idx == j then o ∷ for_dvn j ws else for_dvn j ws

-- A DVN with no options has no entry.
abbrev pub unless_empty : List LzOption → Option (List LzOption)
unless_empty [] = none
unless_empty (o ∷ os) = some (o ∷ os)

-- More options behind those of an entry.
pub extend : Option (List LzOption) → List LzOption → Option (List LzOption)
extend none more = unless_empty more
extend (some present) more = some (present ++ more)

extend-none : (present : Option (List LzOption)) → extend present [] ≡ present
unfolding extend
extend-none none = refl
extend-none (some present) = ap some (append-nil present)

extend-cons :
    (present : Option (List LzOption)) (o : LzOption) (more : List LzOption)
    → extend (extend present (o ∷ [])) more ≡ extend present (o ∷ more)
unfolding extend
extend-cons none o more = refl
extend-cons (some present) o more = ap some (append_assoc present (o ∷ []) more)

-- What one option adds to the variables of the loop, and what all do.
pub pushed : WorkerOption → Decoding → Decoding
pushed (to_executor o) d = record d {
  cursor = d.cursor + length (encode_option (to_executor o));
  executor_options = d.executor_options ++ (o ∷ []);
}
pushed (to_dvn idx o) d = record d {
  cursor = d.cursor + length (encode_option (to_dvn idx o));
  dvn_options = push_dvn_option idx o d.dvn_options;
}

pub pushed_all : List WorkerOption → Decoding → Decoding
unfolding pushed
pushed_all [] d = d
pushed_all (w ∷ ws) d = pushed_all ws (pushed w d)

pub pushed_all-executor :
    (ws : List WorkerOption) (d : Decoding)
    → (pushed_all ws d).executor_options ≡ d.executor_options ++ for_executor ws
unfolding pushed_all for_executor
pushed_all-executor [] d = sym (append-nil d.executor_options)
pushed_all-executor (to_executor o ∷ ws) d =
    pushed_all-executor ws (pushed (to_executor o) d)
    ∙ append_assoc d.executor_options (o ∷ []) (for_executor ws)
pushed_all-executor (to_dvn idx o ∷ ws) d = pushed_all-executor ws (pushed (to_dvn idx o) d)

push-extend :
    (idx j : ℕ) (o : LzOption) (m : DvnOptions)
    → push_dvn_option idx o m j ≡ (if idx == j then extend (m j) (o ∷ []) else m j)
unfolding extend
push-extend idx j o m = elim (Option-cases (m idx)) [
  | inl e ↦ ground (arith, e)
  | inr (present, e) ↦ ground (arith, e)
]

pub pushed_all-dvn :
    (ws : List WorkerOption) (d : Decoding) (j : ℕ)
    → (pushed_all ws d).dvn_options j ≡ extend (d.dvn_options j) (for_dvn j ws)
unfolding pushed_all for_dvn
pushed_all-dvn [] d j = sym (extend-none (d.dvn_options j))
pushed_all-dvn (to_executor o ∷ ws) d j = pushed_all-dvn ws (pushed (to_executor o) d) j
pushed_all-dvn (to_dvn idx o ∷ ws) d j =
    pushed_all-dvn ws (pushed (to_dvn idx o) d) j
    ∙ ground
        (arith, push-extend idx j o d.dvn_options, extend-cons (d.dvn_options j) o (for_dvn j ws))
