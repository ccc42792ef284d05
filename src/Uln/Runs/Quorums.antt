-- ===== src/Uln/Runs/Quorums.antt =====
-- A quorum that is reached, and the history of a confirmation.
use lz_v2_audit.Prelude.{
  ℕ, ◌≤◌, ◌≡◌, refl, ◌&&◌, leb, inl, none, some, List, [], ◌∷◌, true, Result, ok, err, panic,
  length, arith,
}
use lz_v2_audit.Uln.Verification.{verified, verified_at, check_verifiable}
use lz_v2_audit.Uln.Verification.Quorum.{IsResolved, all_confirmed, confirmed_count}
use lz_v2_audit.Uln.Verification.Decision.{
  IsConfirmation, verified-true, check_verifiable_exact, check_verifiable_sound,
}
use lz_v2_audit.Uln.State.{UlnStore}
use lz_v2_audit.Uln.Confirm.{
  init_verify, verify, Reach, here, next, init_step, verify_step, HasSigned,
}
use lz_v2_audit.Uln.Confirm.Authentic.{confirmations_authentic}
use lz_v2_audit.Uln.Runs.{default_config, addresses, confirmed_by, accounts}

reached : check_verifiable addresses 81 500 default_config accounts ≡ ok true
unfolding check_verifiable verified_at verified
reached = refl

resolved : IsResolved default_config
resolved = record {
  required_length = refl;
  optional_length = refl;
  threshold_reachable = omega arith;
  at_least_one = inl (omega arith);
}

check_verifiable_exact_example :
    check_verifiable addresses 81 500 default_config accounts
    ≡ ok (
        all_confirmed addresses 81 500 2 accounts 0 (3 ∷ [])
        && leb 1 (confirmed_count addresses 81 500 2 accounts 1 (4 ∷ 6 ∷ [])))
unfolding verified_at verified
check_verifiable_exact_example =
    check_verifiable_exact addresses 81 500 default_config accounts resolved (tt, tt) (tt, (tt, tt))

check_verifiable_sound_example :
    (all_confirmed addresses 81 500 2 accounts 0 (3 ∷ []) ≡ true)
    × (1 ≤ confirmed_count addresses 81 500 2 accounts 1 (4 ∷ 6 ∷ []))
check_verifiable_sound_example =
    check_verifiable_sound addresses 81 500 default_config accounts resolved reached

verified-true_example : IsConfirmation addresses 81 500 2 6 (confirmed_by 6 9)
unfolding verified_at verified
verified-true_example = verified-true addresses 81 500 2 6 (confirmed_by 6 9) refl

abbrev hash : List ℕ → ℕ
hash bytes = length bytes

abbrev unconfirmed : UlnStore
unconfirmed = record {
  uln = none;
  default_send_configs = λ eid. none;
  send_configs = λ key. none;
  default_receive_configs = λ eid. none;
  receive_configs = λ key. none;
  confirmations = λ key. none;
  log = [];
}

abbrev after : UlnStore → Result UlnStore → UlnStore
after s (ok t) = t
after s (err e) = s
after s panic = s

abbrev opened : UlnStore
opened = after unconfirmed (
    init_verify hash 1 (record { packet_header = 1 ∷ 2 ∷ []; payload_hash = 500; dvn = 3 })
      unconfirmed)

abbrev signed : UlnStore
signed = after opened (
    verify hash 3 (record { packet_header = 1 ∷ 2 ∷ []; payload_hash = 500; confirmations = 7 })
      opened)

signing : Reach hash unconfirmed signed
unfolding init_verify verify
signing =
    next
      (next here
        (init_step 1 (record { packet_header = 1 ∷ 2 ∷ []; payload_hash = 500; dvn = 3 }) refl))
      (verify_step 3 (record { packet_header = 1 ∷ 2 ∷ []; payload_hash = 500; confirmations = 7 })
        refl)

confirmations_authentic_example : HasSigned hash unconfirmed signed 2 500 3 7
unfolding init_verify verify
confirmations_authentic_example =
    confirmations_authentic hash unconfirmed signed 2 500 3 7 (record { value = some 7; bump = 1 })
      (λ key. refl) signing refl refl
