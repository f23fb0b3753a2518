-- ===== src/Instance/Start/Tests.antt =====
-- Signing a configuration of one byte, and running a node with it.
use connectopus.Prelude.{
  ℕ, Bool, sym, some-injective, Option, List, In, ◌≡◌, refl, true, false, none, some, [], ◌∷◌,
  Bytes, bytes_eq, bytes_beq, get,
}
use connectopus.Router.Samples.{ip}
use connectopus.Config.Node.{Config, Time}
use connectopus.Netopus.Samples.{informed}
use connectopus.Instance.Signed.{accepted, load_config, parse_and_check_config}
use connectopus.Instance.Update.{NodeInstance, wrote, apply_config, new_config}
use connectopus.Netopus.Node.{Netopus}
use connectopus.Config.Node.{Os}
use connectopus.Backends.Registry.{Backends}
use connectopus.Netopus.Updates.{update_config}
use connectopus.Netopus.Lifecycle.{Made, made, refused, new_node, least_mtu, least_of}
use connectopus.Instance.Signed.{DataDir, signed_by}
use connectopus.Instance.Signing.{
  Agent, Agrees, sign_config, sign_if_one, sign_with, sign_config-accepted,
}
use connectopus.Instance.Start.{up, data_dir_of, start_node, start_with, backend_types, run_node}
use connectopus.Instance.Start.Consistent.{
  Consistent, Reached, began, updated, restarted, run_node-Consistent,
}
use connectopus.Instance.Samples.{keyed, checker, update_data}

-- The node that New makes, where it makes one.
abbrev new_made : Made → Netopus
new_made (made n) = n
new_made (refused e) = informed

-- An agent with the key 5, whose signature of anything is its own text.
abbrev agent : Agent
agent = record { is_open = true; matching_keys = λ text. some (text ∷ []); sign = λ d k. some k }

abbrev marshal : Config → Option Bytes
marshal cfg = some update_data

agrees : Agrees checker agent marshal (keyed 6)
agrees = record {
  reads_back = λ d e. let is_d : update_data ≡ d = some-injective e in rw (← is_d) refl;
  verifies = λ d k s e. (bytes_eq.beq_iff s k).1 (sym (some-injective e));
}

sign_config-accepted_example :
    (key : Bytes) × (agent.matching_keys (5 ∷ []) ≡ some (key ∷ []))
    × ((keys : List Bytes)
        → In key keys
        → (parse_and_check_config checker update_data (5 ∷ []) (some keys) ≡ accepted (keyed 6))
          × ((ni : NodeInstance)
              → ni.cfg.global.authorized_keys ≡ some keys
              → (new_config checker wrote wrote update_data (5 ∷ []) ni).1 ≡ none))
unfolding sign_config sign_if_one sign_with
sign_config-accepted_example =
    sign_config-accepted checker agent marshal (5 ∷ []) (keyed 6) false 3 update_data (5 ∷ [])
      agrees refl

-- A data directory under its own name, and an operating system without directories.
abbrev os : Os
os = record {
  user_config_dir = none;
  stat = λ path. false;
  read_dir = λ path. none;
  join = λ parts. [];
  is_abs = λ path. true;
}

abbrev signed_files : Bytes → DataDir
signed_files dir = record { config_yml = some update_data; config_sig = some update_data }

abbrev backends : Backends ℕ
backends = []

abbrev started : NodeInstance
started = record {
  cfg = keyed 6;
  identity = 1 ∷ [];
  node = update_config update_data update_data 6 (new_made (new_node (ip 1) (1 ∷ []) true 9 true));
  ns_reg = [];
  data_dir = signed_files [];
  reconciled = [];
}

-- Another configuration, which lists the key 7 and is signed by the key 6.
abbrev new_data : Bytes
new_data = 7 ∷ []

abbrev updated_files : DataDir
updated_files = record { config_yml = some new_data; config_sig = some update_data }

abbrev again : NodeInstance
again = record {
  cfg = keyed 7;
  identity = 1 ∷ [];
  node = update_config new_data update_data 7 (new_made (new_node (ip 1) (1 ∷ []) true 9 true));
  ns_reg = [];
  data_dir = updated_files;
  reconciled = [];
}

-- RunNode, an update, and a restart with its configuration.
restarted_once : Reached checker backends again
unfolding run_node load_config parse_and_check_config signed_by data_dir_of start_node start_with
    get bytes_beq new_node update_config least_mtu least_of backend_types new_config apply_config
restarted_once =
    restarted (keyed 7) [] 9 true 1500
      (updated new_data update_data
        (began {ni = started} os signed_files (4 ∷ []) (1 ∷ []) 9 true 1500 refl))
      (new_data, refl, refl) refl

run_node-Consistent_example :
    Consistent checker again
    × ((cfg : Config) (datadir : Bytes) (now : Time) (stack : Bool) (ni' : NodeInstance) (mtu : ℕ)
        → start_node backends
            (record { config = cfg; identity = 1 ∷ []; datadir = datadir })
            updated_files
            now
            stack
          ≡ up ni' mtu
        → (d : Bytes) × (sig : Bytes) × (updated_files
            ≡ record { config_yml = some d; config_sig = some sig })
          × (ni'.node.config_info ≡ record {
            config_version = cfg.global.last_updated;
            config_data = d;
            config_signature = sig;
          }))
run_node-Consistent_example = run_node-Consistent checker backends again restarted_once
