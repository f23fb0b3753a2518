-- ===== src/Instance/Start.antt =====
-- pkg/connectopus/connectopus.go: RunNode, the start of a node, and ReconcileNode. The reconciler of
-- golib runs what it is given: its status is left out.
pub mod Consistent
mod Tests
use connectopus.Prelude.{
  ℕ, ◌≡◌, refl, ap, sym, ◌∙◌, inl, inr, Bool, true, false, not, Option, none, some, List, [], ◌∷◌,
  Bytes, bytes_eq, nat_eq, ◌==◌, GoMap, get, length, if◌then◌else◌,
}
use connectopus.Proto.Ip.{Ip}
use connectopus.Config.{Params, get_string}
use connectopus.Config.Node.{Config, NodeConfig, Os, Time, find_data_dirs}
use connectopus.Backends.Settings.{type_name}
use connectopus.Backends.Registry.{Backends}
use connectopus.Netopus.Node.{Netopus}
use connectopus.Netopus.Updates.{update_config}
use connectopus.Netopus.Lifecycle.{Made, made, refused, NewError, new_node, least_mtu}
use connectopus.Instance.Signed.{
  Checker, Checked, accepted, rejected, ConfigError, DataDir, load_config,
}
use connectopus.Instance.Update.{NodeInstance, NodeCfg}

pub data StartError : Type 0 where
  no_identity no_data_dir : StartError
  load_error : ConfigError → StartError
  invalid_identity config_yml_unreadable config_sig_unreadable : StartError
  new_error : NewError → StartError

-- The instance and the MTU that it was made with.
pub data Start : Type 0 where
  up : NodeInstance → ℕ → Start
  down : StartError → Start

-- The types of the node's backends, as LeastMTU reads them
unfoldable pub backend_types : GoMap Bytes Params → List Bytes
backend_types [] = []
backend_types ((_, p) ∷ backends) = get_string type_name [] p ∷ backend_types backends

-- The data directory that RunNode takes
unfoldable pub data_dir_of : Os → Bytes → Bytes → Option Bytes
unfolding find_data_dirs
data_dir_of os datadir identity =
    if length datadir == 0
    then (elim (find_data_dirs os identity) [
      | none ↦ none
      | some [] ↦ none
      | some (dir ∷ []) ↦ some dir
      | some (dir ∷ other ∷ dirs) ↦ none
    ])
    else some datadir

module _ {R : Type 0} (backends : Backends R) where
  -- The end of Start, with both files; `now` and `stack` are New's.
  unfoldable pub start_with : NodeCfg → NodeConfig → DataDir → Bytes → Bytes → Time → Bool → Start
  unfolding new_node update_config least_mtu backend_types
  start_with nc node dir cfg_data sig_data now stack =
      elim (new_node node.address nc.identity true now stack) [
        | refused e ↦ down (new_error e)
        | made n ↦
            up
              (record {
                cfg = nc.config;
                identity = nc.identity;
                node = update_config cfg_data sig_data nc.config.global.last_updated n;
                ns_reg = [];
                data_dir = dir;
                reconciled = [];
              })
              (least_mtu backends (backend_types node.backends) 1500)
      ]

  -- (NodeCfg).Start
  unfoldable pub start_node : NodeCfg → DataDir → Time → Bool → Start
  unfolding start_with
  start_node nc dir now stack = elim (get nc.identity nc.config.nodes) [
    | none ↦ down invalid_identity
    | some node ↦ (elim dir.config_yml [
      | none ↦ down config_yml_unreadable
      | some cfg_data ↦ (elim dir.config_sig [
        | none ↦ down config_sig_unreadable
        | some sig_data ↦ start_with nc node dir cfg_data sig_data now stack
      ])
    ])
  ]

  -- RunNode; `files` is what a data directory holds.
  unfoldable pub run_node : Checker → Os → (Bytes → DataDir) → Bytes → Bytes → Time → Bool → Start
  unfolding data_dir_of load_config start_node
  run_node checker os files datadir identity now stack =
      if length identity == 0 then down no_identity else (elim (data_dir_of os datadir identity) [
        | none ↦ down no_data_dir
        | some dir ↦ (elim (load_config checker (files dir)) [
          | rejected e ↦ down (load_error e)
          | accepted cfg ↦
              start_node (record { config = cfg; identity = identity; datadir = dir }) (files dir)
                now stack
        ])
      ])

-- (Node).ReconcileNode: the NodeCfg that is reconciled, where the running item has one.
unfoldable pub reconcile_node : Config → NodeCfg → NodeCfg
reconcile_node cfg nc = record nc { config = cfg }
