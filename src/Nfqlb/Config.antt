-- ===== src/Nfqlb/Config.antt =====
-- pkg/nfqlb/const.go, config.go and option.go. Loggers and the heal interval are left out.
use l_3_4_gateway_api_poc.Base.{ℕ, ◌*◌, Bool, false, List, [], ◌∷◌, Text, codes}

abbrev pub ownfw : ℕ
ownfw = 0

abbrev pub default_max_targets : ℕ
default_max_targets = 100

abbrev pub default_starting_offset : ℕ
default_starting_offset = 5000

abbrev pub maglev_m_multiplier : ℕ
maglev_m_multiplier = 100

pub record Config : Type 0 where
  pub queue : Text
  pub qlength : ℕ
  pub fanout : Bool
  pub starting_offset : ℕ
  pub nfqlb_path : Text

unfoldable pub new_nfqlb_config : Config
new_nfqlb_config = record {
  queue = codes "0:3";
  qlength = 1024;
  fanout = false;
  starting_offset = default_starting_offset;
  nfqlb_path = codes "nfqlb";
}

pub record ServiceConfig : Type 0 where
  pub max_targets : ℕ

unfoldable pub new_nfqlb_service_config : ServiceConfig
new_nfqlb_service_config = record { max_targets = default_max_targets }

unfoldable pub get_m : ServiceConfig → ℕ
get_m sc = sc.max_targets * maglev_m_multiplier

unfoldable pub with_queue : Text → Config → Config
with_queue queue c = record c { queue = queue }

unfoldable pub with_qlength : ℕ → Config → Config
with_qlength qlength c = record c { qlength = qlength }

unfoldable pub with_fanout : Bool → Config → Config
with_fanout fanout c = record c { fanout = fanout }

unfoldable pub with_starting_offset : ℕ → Config → Config
with_starting_offset starting_offset c = record c { starting_offset = starting_offset }

unfoldable pub with_nfqlb_path : Text → Config → Config
with_nfqlb_path nfqlb_path c = record c { nfqlb_path = nfqlb_path }

unfoldable pub with_max_targets : ℕ → ServiceConfig → ServiceConfig
with_max_targets max_targets c = record c { max_targets = max_targets }

-- `for _, opt := range options { opt(config) }`
unfoldable pub apply_options {ℓ} : {C : Type ℓ} → List (C → C) → C → C
apply_options [] c = c
apply_options (opt ∷ options) c = apply_options options (opt c)
