-- ===== src/Uln/Runs.antt =====
-- The ULN on concrete configurations and confirmations.
mod Configs
mod Quorums
mod Commits
mod Settings
mod Options
mod Sends
use lz_v2_audit.Prelude.{ℕ, ◌+◌, ◌*◌, Option, none, some, List, [], ◌∷◌, ok}
use lz_v2_audit.Uln.Config.{UlnConfig}
use lz_v2_audit.Uln.Verification.{AccountInfo, Addresses}

-- One required DVN, 3, and one of the optional DVNs 4 and 6, with two confirmations.
abbrev pub default_config : UlnConfig
default_config = record {
  confirmations = 2;
  required_dvn_count = 1;
  optional_dvn_count = 2;
  optional_dvn_threshold = 1;
  required_dvns = 3 ∷ [];
  optional_dvns = 4 ∷ 6 ∷ [];
}

-- The required DVNs 3 and 5, no optional ones, and the default confirmations.
abbrev pub custom_config : UlnConfig
custom_config = record {
  confirmations = 0;
  required_dvn_count = 2;
  optional_dvn_count = 255;
  optional_dvn_threshold = 0;
  required_dvns = 3 ∷ 5 ∷ [];
  optional_dvns = [];
}

-- The ULN is the program 11, and an address is the sum of its seeds.
abbrev pub addresses : Addresses
addresses = record {
  uln_id = 11;
  confirmations_address =
      λ header_hash payload_hash dvn bump. some (header_hash + (payload_hash + (dvn + bump)));
}

-- The account of a DVN's confirmations for the header hash 81 and the payload hash 500.
abbrev pub confirmed_by : ℕ → ℕ → AccountInfo
confirmed_by dvn conf = record {
  key = 81 + (500 + (dvn + 1));
  owner = 11;
  content = ok (record { value = some conf; bump = 1 });
}

-- DVNs 3 and 6 have confirmed, DVN 4 has not.
abbrev pub accounts : List AccountInfo
accounts = confirmed_by 3 2 ∷ confirmed_by 4 1 ∷ confirmed_by 6 9 ∷ []
