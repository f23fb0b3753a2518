-- ===== src/Instance/Tests.antt =====
-- Updates of a node whose configurations are one byte, and a backend named "dns".
use connectopus.Prelude.{
  ℕ, true, false, ◌≡◌, refl, none, some, [], ◌∷◌, bytes_eq, bytes_beq, or_else, item_of, get,
  not-In-nil,
}
use connectopus.Config.Node.{Config}
use connectopus.Instance.Signed.{
  accepted, rejected, signature_failed, load_config, SignedBy, keys_or,
}
use connectopus.Instance.Update.{
  wrote, write_error, new_config, NodeCfg, same_keys, keys_equal, globals_equal, parent_equal,
}
use connectopus.Instance.Update.Outcomes.{Outcome, new_config-Outcome, new_config-load_config}
use connectopus.Instance.Children.{
  dns_name, node_children, get-node_children, built_in, namespace_cfg, tun_dev_cfg, service_cfg,
  backend_cfg,
}
use connectopus.Instance.Samples.{
  node_with, keyed, checker, instance_, update_data, update_signature,
}

new_config-Outcome_example :
    let (ni', r) =
      new_config checker wrote (write_error none) update_data update_signature instance_ in
    Outcome checker update_data update_signature instance_ ni' r
new_config-Outcome_example =
    new_config-Outcome checker wrote (write_error none) update_data update_signature instance_

new_config-load_config_example :
    let again =
      load_config checker
        (new_config checker wrote wrote update_data update_signature instance_).0.data_dir in
    let Listed = SignedBy checker update_data update_signature (keys_or (some ((6 ∷ []) ∷ []))) in
    (Listed → again ≡ accepted (keyed 6)) × (¬ Listed → again ≡ rejected signature_failed)
unfolding new_config bytes_beq
new_config-load_config_example =
    new_config-load_config checker update_data update_signature instance_ (keyed 6) refl refl

abbrev running : Config → NodeCfg
running cfg = record { config = cfg; identity = 1 ∷ []; datadir = [] }

abbrev updated_at : ℕ → Config
updated_at t =
    let c = keyed 6 in record { global = record c.global { last_updated = t }; nodes = c.nodes }

abbrev same : NodeCfg
same = running (keyed 6)

-- The time of the last update alone does not restart a node, another key does.
later_update : parent_equal (λ a. a) same (running (updated_at 9)) ≡ true
unfolding parent_equal globals_equal keys_equal same_keys get bytes_beq
later_update = refl

other_key : parent_equal (λ a. a) same (running (keyed 7)) ≡ false
unfolding parent_equal globals_equal keys_equal same_keys get bytes_beq
other_key = refl

get-node_children_example :
    get dns_name (node_children (node_with dns_name))
    ≡ or_else (item_of namespace_cfg none) (
        or_else (item_of tun_dev_cfg none) (
          or_else
            (item_of service_cfg none)
            (or_else (item_of backend_cfg (some [])) (built_in dns_name (node_with dns_name)))))
unfolding get bytes_beq
get-node_children_example =
    get-node_children (node_with dns_name) dns_name (record {
      backends = (λ i. not-In-nil _ i, tt);
      namespaces = tt;
      services = tt;
      tun_devs = tt;
    })
