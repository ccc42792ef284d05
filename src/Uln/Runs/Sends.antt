-- ===== src/Uln/Runs/Sends.antt =====
-- A packet is quoted and sent: one executor, three DVNs and a treasury.
use lz_v2_audit.Prelude.{
  ℕ, ◌+◌, ◌≤◌, ◌≡◌, refl, none, some, List, [], ◌∷◌, false, length, All, ok, write, nat_eq, pair_eq,
}
use lz_v2_audit.Bytes.{be_bytes, from_be_bytes, slice, to_uint}
use lz_v2_audit.Packet.{encode}
use lz_v2_audit.Endpoint.State.{Packet, MessagingFee}
use lz_v2_audit.Endpoint.Store.{LibrarySendParams}
use lz_v2_audit.Uln.Config as Uln
use lz_v2_audit.Uln.Executor
use lz_v2_audit.Uln.State.{UlnStore, UlnSettings, SendConfig, Treasury, fees_paid}
use lz_v2_audit.Uln.Options.{decode_options, convert_legacy_options}
use lz_v2_audit.Uln.Options.Legacy.{encode_type_1}
use lz_v2_audit.Uln.Admin.{emit}
use lz_v2_audit.Uln.Admin.Reachable.{no_accounts}
use lz_v2_audit.Uln.Fees.{
  WorkerInfo, Workers, chunks, assert_non_signers, quote_executor, quote_dvn_at, each_chunk,
  quote_dvns, sum_fees, quote_treasury,
}
use lz_v2_audit.Uln.Sending.{
  Payment, lamports, Payable, SendAccounts, get_send_config, pay_worker, pay_dvns, quote,
  assign_job_to_workers, charge_treasury, pay_treasury, send,
}
use lz_v2_audit.Uln.Sending.Exact.{quote_for, send_quoted}
use lz_v2_audit.Uln.Sending.Paid.{lamports_in, IsBy, send_paid}
use lz_v2_audit.Uln.Runs.{default_config}

abbrev info : (key owner : ℕ) → WorkerInfo
info key owner = record { key = key; owner = owner; is_signer = false }

abbrev worker_accounts : (config program : ℕ) → List WorkerInfo → List WorkerInfo
worker_accounts config program rest =
    info program 0 ∷ info config program ∷ info 90 0 ∷ info 91 90 ∷ rest

-- The executor 21, and the DVNs 3, 4 and 6.
abbrev accounts : List WorkerInfo
accounts =
    worker_accounts 21 50 (worker_accounts 3 60 (worker_accounts 4 60 (worker_accounts 6 60 [])))

-- An executor that asks for its calldata, and DVNs that ask for 1000 each.
abbrev workers : Workers
workers = record {
  uln_key = 2;
  keccak = λ bytes. length bytes;
  quote_executor = λ c params. ok (5000 + params.calldata_size);
  quote_dvn = λ c params. ok 1000;
}

-- The programs pay everything.
abbrev solvent : Payable
solvent paid payment = ok tt

abbrev treasury : Treasury
treasury = record {
  admin = none;
  native_receiver = 70;
  native_fee_bps = 500;
  lz_token = some (record { receiver = 71; fee = 9 });
}

abbrev settings : UlnSettings
settings = record {
  eid = 1;
  endpoint = 8;
  endpoint_program = 9;
  bump = 255;
  admin = 4;
  treasury = some treasury;
}

abbrev default_send : SendConfig
default_send = record {
  bump = 0;
  uln = default_config;
  executor = record { max_message_size = 10000; executor = 21 };
}

abbrev store : UlnStore
store = record no_accounts {
  uln = some settings;
  default_send_configs = write 2 (some default_send) no_accounts.default_send_configs;
}

abbrev packet : Packet
packet = record {
  nonce = 1;
  src_eid = 1;
  sender = 7;
  dst_eid = 2;
  receiver = 77;
  guid = 1234;
  message = 5 ∷ 6 ∷ [];
}

abbrev send_params : LibrarySendParams
send_params = record { packet = packet; options = encode_type_1 200000; native_fee = 10000 }

abbrev send_accounts : SendAccounts
send_accounts = record { endpoint = 8; payer = 66; treasury = some 70 }

-- 5002 for the executor, 3000 for the DVNs, and five per cent of both for the treasury.
abbrev fee : MessagingFee
fee = record { native_fee = 8402; lz_token_fee = 0 }

abbrev to_workers : List Payment
to_workers = lamports 66 6 1000 ∷ lamports 66 4 1000 ∷ lamports 66 3 1000 ∷ lamports 66 21 5002 ∷ []

abbrev after : UlnStore
after =
    emit
      (fees_paid (record { worker = 21; fee = 5002 })
        (record { worker = 3; fee = 1000 }
          ∷ record { worker = 4; fee = 1000 }
          ∷ record { worker = 6; fee = 1000 }
          ∷ [])
        (some (record { treasury = 70; fee = 400; pay_in_lz_token = false })))
      store

sent :
    send workers solvent send_accounts accounts send_params store
    ≡ ok ((fee, encode packet), (after, lamports 66 70 400 ∷ to_workers))
unfolding send assign_job_to_workers get_send_config Uln.get_config Executor.get_config
    decode_options convert_legacy_options be_bytes from_be_bytes slice to_uint quote_executor
    quote_dvns quote_dvn_at each_chunk assert_non_signers chunks sum_fees pay_worker pay_dvns
    pay_treasury charge_treasury quote_treasury
sent = refl

send_quoted_example :
    (quote workers 8 accounts (quote_for packet (encode_type_1 200000) false) store ≡ ok fee)
    × (encode packet ≡ encode packet)
send_quoted_example =
    send_quoted workers solvent send_accounts accounts send_params store fee (encode packet)
      (after, lamports 66 70 400 ∷ to_workers) sent

send_paid_example :
    (lamports_in (lamports 66 70 400 ∷ to_workers) ≡ 8402)
    × All (IsBy 66) (lamports 66 70 400 ∷ to_workers)
    × (8402 ≤ 10000)
send_paid_example =
    send_paid workers solvent send_accounts accounts send_params store (fee, encode packet) after
      (lamports 66 70 400 ∷ to_workers) sent
