-- ===== src/Lib.antt =====
-- The Solana programs of LayerZero V2 (packages/layerzero-v2/solana/programs), an omnichain messaging
-- protocol: an oapp sends a packet through the endpoint of its chain; decentralised verifier networks
-- (DVNs) confirm it on the destination chain, where the message library (ULN) checks that enough of
-- them have and commits the packet's hash to the endpoint; the receiving oapp then clears it.
--
-- Parts, and the files that model them (paths below packages/layerzero-v2/solana/programs):
--   Prelude      what the components share: Boolean tests, lists by native numbers, the error enums,
--                the result of an instruction (a value, an error, or a panic), accounts by seeds
--   Bytes        libs/utils/src/bytes_lib.rs, and big-endian words
--   SortedList   libs/utils/src/sorted_list_helper.rs, on the binary search of Rust's slices
--   Packet       libs/messagelib-helper/src/packet_v1_codec.rs
--   Endpoint     programs/endpoint: State, Events and Store are its accounts; Channel is
--                state/messaging_channel.rs; Messaging the inbound instructions (init_nonce,
--                init_verify, verify, skip, clear, nilify, burn); Sending is send and quote; Compose,
--                Libraries and Admin the others. Safety is about histories of all of these.
--   Uln          programs/uln: Config and Executor are state/uln.rs; Confirm is init_verify, verify
--                and close_verify; Verification the quorum check; Commit is commit_verification,
--                which calls the endpoint's verify; Admin is the instructions that store the settings
--                and configurations; Options is options_codec.rs; Fees and Sending are quote, send and
--                send_with_lz_token, which call the workers
--   Worker       programs/worker-interface: the calls of a worker, its access list and its fee
--   PriceFeed    programs/pricefeed: its account and instructions, and Fee, which is get_fee
--   Dvn          programs/dvn: the configuration; Committee is its signatures; Invoke the instructions
--                that write its accounts; Quote its fee, which asks the price feed
--   ExecutorProgram
--                programs/executor: the configuration and the instructions that write it; Options is
--                options_codec.rs; Quote its fee, which asks the price feed
--
-- An instruction is a function from its signers, its parameters and the store to a new store, and is
-- named as the handler in lib.rs. It reads the accounts of its `Accounts` struct by their seeds,
-- checks the constraints in the order written, and runs `apply`. A failing instruction gives an error
-- or a panic, and the runtime then keeps the old store. Arithmetic on words is checked, as the
-- workspace is built with `overflow-checks = true`.
--
-- Public keys and 32-byte arrays are the numbers that their bytes spell in big-endian order, so the
-- order of keys is that of numbers. Bytes are numbers too, and a word is read back by the widths
-- stated. Program-derived addresses are modelled as seeds: two accounts with different seeds are
-- different. The clock, keccak, address derivation and the message libraries that the endpoint calls
-- are parameters (`Runtime` and `Addresses`).
--
-- There are two loops on fuel. The binary search halves a range of at most the length of its list and
-- gets that length; SortedList/Search compares it with a linear scan. The loop over worker options
-- reads three bytes or more a round and gets one round for each byte of the options and one to end;
-- Uln/Options/Total is about it.
--
-- Not modelled: lamports, but for the payments of a send (withdraw_rent, withdraw_fee, the rent of
-- closed accounts), the encoding of calls between programs, the endpoint's init_config and set_config,
-- which only pass their parameters on, the DVN's verifiable, the executor's execute, compose,
-- native_drop and executable, and OFT. The program that the ULN's settings name as the endpoint's is
-- taken to be the endpoint. What the bytes of a configuration decode to, the recovery of a
-- key from a signature, the answers of the price feed to the DVN and the executor, of the workers to
-- the ULN, and of the system and token programs to a payment are parameters.
pub mod Bytes
pub mod Dvn
pub mod Endpoint
pub mod ExecutorProgram
pub mod Packet
pub mod Prelude
pub mod PriceFeed
pub mod SortedList
pub mod Uln
pub mod Worker
