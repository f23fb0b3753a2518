-- ===== src/Instance/Update.antt =====
-- pkg/connectopus/connectopus.go: a new configuration for a running node, from the network or from
-- its user. Writing the files is a step that may fail.
pub mod Outcomes
use connectopus.Prelude.{
  ℕ, Bool, true, false, not, Option, none, some, List, [], ◌∷◌, Bytes, bytes_eq, ◌==◌, ◌&&◌, get,
  GoMap, if◌then◌else◌,
}
use connectopus.Config.Node.{Config, Global, NodeConfig}
use connectopus.Proto.Ip.{Ip}
use connectopus.Netopus.Node.{Netopus}
use connectopus.Netopus.Updates.{update_config}
use connectopus.Instance.Signed.{
  Checker, Checked, accepted, rejected, ConfigError, DataDir, parse_and_check_config,
  config_unwritable, signature_unwritable, wrong_type,
}

-- nodeInstance, with the files of its data directory and the configurations that NewConfig has
-- handed on to ReconcileNode, the last one first.
pub record NodeInstance : Type 0 where
  pub cfg : Config
  pub identity : Bytes
  pub node : Netopus
  pub ns_reg : GoMap Bytes ℕ
  pub data_dir : DataDir
  pub reconciled : List Config

-- What os.WriteFile does: it writes the file, or fails and leaves something.
pub data Write : Type 0 where
  wrote : Write
  write_error : Option Bytes → Write

module _ (checker : Checker) where
  -- What NewConfig does once it has accepted a configuration.
  unfoldable pub apply_config :
      Write → Write → Bytes → Bytes → Config → NodeInstance → NodeInstance × Option ConfigError
  unfolding update_config
  apply_config (write_error left) sig_write config signature cfg ni =
      (record ni { data_dir = record ni.data_dir { config_yml = left } }, some config_unwritable)
  apply_config wrote (write_error left) config signature cfg ni = (
    record ni { data_dir = record { config_yml = some config; config_sig = left } },
    some signature_unwritable,
  )
  apply_config wrote wrote config signature cfg ni = (
    record ni {
      data_dir = record { config_yml = some config; config_sig = some signature };
      node = update_config config signature cfg.global.last_updated ni.node;
      reconciled = cfg ∷ ni.reconciled;
    },
    none,
  )

  -- NewConfig; how the writes of config.yml and config.sig go are the first arguments.
  unfoldable pub new_config :
      Write → Write → Bytes → Bytes → NodeInstance → NodeInstance × Option ConfigError
  unfolding parse_and_check_config apply_config
  new_config yml_write sig_write config signature ni =
      elim (parse_and_check_config checker config signature ni.cfg.global.authorized_keys) [
        | rejected e ↦ (ni, some e)
        | accepted cfg ↦ apply_config yml_write sig_write config signature cfg ni
      ]

-- Two lists of keys, and two slices that may be nil, as reflect.DeepEqual compares them.
unfoldable pub same_keys : List Bytes → List Bytes → Bool
same_keys [] [] = true
same_keys [] (j ∷ js) = false
same_keys (k ∷ ks) [] = false
same_keys (k ∷ ks) (j ∷ js) = k == j && same_keys ks js

unfoldable pub keys_equal : Option (List Bytes) → Option (List Bytes) → Bool
unfolding same_keys
keys_equal none none = true
keys_equal none (some ks) = false
keys_equal (some ks) none = false
keys_equal (some ks) (some js) = same_keys ks js

-- reflect.DeepEqual of two Globals with LastUpdated set to the zero time
unfoldable pub globals_equal : Global → Global → Bool
unfolding keys_equal
globals_equal g h =
    g.domain == h.domain && (g.subnet == h.subnet && keys_equal g.authorized_keys h.authorized_keys)

-- NodeCfg
pub record NodeCfg : Type 0 where
  pub config : Config
  pub identity : Bytes
  pub datadir : Bytes

-- (NodeCfg).ParentEqual for another NodeCfg; `ip_string` is IP.String.
unfoldable pub parent_equal : (Bytes → Bytes) → NodeCfg → NodeCfg → Bool
unfolding globals_equal
parent_equal ip_string nc ci =
    if not (ci.identity == nc.identity)
    then false
    else if not (globals_equal ci.config.global nc.config.global)
    then false
    else (elim (get ci.identity ci.config.nodes) [
      | none ↦ false
      | some cn ↦ (elim (get nc.identity nc.config.nodes) [
        | none ↦ false
        | some nn ↦ ip_string cn.address == ip_string nn.address
      ])
    ])
