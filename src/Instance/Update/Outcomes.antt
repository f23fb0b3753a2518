-- ===== src/Instance/Update/Outcomes.antt =====
-- What NewConfig leaves behind, on every path.
use connectopus.Prelude.{Option, none, some, ◌∷◌, Bytes, ◌≡◌, refl, ap, ◌∙◌, inl, inr, Bool-cases}
use connectopus.Config.Node.{Config}
use connectopus.Netopus.Updates.{update_config}
use connectopus.Instance.Signed.{
  Checker, Checked, accepted, rejected, ConfigError, load_config, parse_and_check_config, SignedBy,
  keys_or, auth_keys_of, signed_by, signed_by_iff, parse_and_check_config_lem, config_unwritable,
  signature_unwritable, signature_failed,
}
use connectopus.Instance.Update.{NodeInstance, Write, wrote, write_error, apply_config, new_config}

module _ (checker : Checker) where
  -- The configuration that the update holds, signed by a key of the running one.
  pub record Signed (config signature : Bytes) (ni : NodeInstance) (cfg : Config) : Type 0 where
    pub parses : checker.unmarshal config ≡ some cfg
    pub by_running_key :
        SignedBy checker config signature (auth_keys_of checker cfg ni.cfg.global.authorized_keys)

  pub data Outcome (config signature : Bytes) (ni ni' : NodeInstance)
      : Option ConfigError → Type 0 where
    -- nothing has changed
    refused :
        (e : ConfigError)
        → ((cfg : Config) → ¬ Signed config signature ni cfg)
        → ni' ≡ ni
        → Outcome config signature ni ni' (some e)
    -- the files may have changed, the node has not
    unwritten :
        (e : ConfigError) (cfg : Config)
        → Signed config signature ni cfg
        → ni' ≡ record ni { data_dir = ni'.data_dir }
        → Outcome config signature ni ni' (some e)
    applied :
        (cfg : Config)
        → Signed config signature ni cfg
        → ni'.node ≡ update_config config signature cfg.global.last_updated ni.node
        → ni'.reconciled ≡ cfg ∷ ni.reconciled
        → ni'.cfg ≡ ni.cfg
        → ni'.data_dir ≡ record { config_yml = some config; config_sig = some signature }
        → Outcome config signature ni ni' none

  -- A NewConfig that fails hands nothing on and leaves the node as it was, the files too if the
  -- configuration does not parse or no key of the running one accepts the signature; one that
  -- succeeds has both files written and gives the node and the reconciler that configuration.
  pub new_config-Outcome :
      (yml_write sig_write : Write) (config signature : Bytes) (ni : NodeInstance)
      → (let (ni', r) = new_config checker yml_write sig_write config signature ni in
          Outcome config signature ni ni' r)
  unfolding new_config apply_config
  new_config-Outcome yml_write sig_write config signature ni =
      by_check (parse_and_check_config checker config signature ni.cfg.global.authorized_keys) refl
    where
      writes :
          (cfg : Config)
          → Signed config signature ni cfg
          → (y s : Write)
          → (let (ni', r) = apply_config checker y s config signature cfg ni in
              Outcome config signature ni ni' r)
      writes cfg signed (write_error left) s = unwritten config_unwritable cfg signed refl
      writes cfg signed wrote (write_error left) = unwritten signature_unwritable cfg signed refl
      writes cfg signed wrote wrote = applied cfg signed refl refl refl refl

      by_check :
          (c : Checked)
          → parse_and_check_config checker config signature ni.cfg.global.authorized_keys ≡ c
          → (let (ni', r) = new_config checker yml_write sig_write config signature ni in
              Outcome config signature ni ni' r)
      by_check (rejected e) h =
          rw (h, new_config)
            (refused e
              (λ cfg s.
                let back =
                  parse_and_check_config_lem checker config signature ni.cfg.global.authorized_keys
                    cfg in
                let ok = back.1 (s.parses, s.by_running_key) in cc)
              refl)
      by_check (accepted cfg) h =
          let there =
            parse_and_check_config_lem checker config signature ni.cfg.global.authorized_keys cfg in
          let (parses, by) = there.0 h in
          rw (h, new_config)
            (writes cfg (record { parses = parses; by_running_key = by }) yml_write sig_write)

  files_of_accepted :
      (config signature : Bytes) (ni : NodeInstance) (c : Checked)
      → parse_and_check_config checker config signature ni.cfg.global.authorized_keys ≡ c
      → (new_config checker wrote wrote config signature ni).1 ≡ none
      → (new_config checker wrote wrote config signature ni).0.data_dir
        ≡ record { config_yml = some config; config_sig = some signature }
  unfolding new_config apply_config
  files_of_accepted config signature ni (rejected e) c h =
      absurd (let clash = rw (c, new_config) at h in cc)
  files_of_accepted config signature ni (accepted cfg) c h = rw (c, new_config) refl

  -- After a NewConfig that succeeds, the data directory loads again exactly if one of the keys that
  -- the new configuration itself lists accepts the signature: a key of the running configuration,
  -- by which the update was accepted, does not count, and without another the next start fails.
  pub new_config-load_config :
      (config signature : Bytes) (ni : NodeInstance) (cfg : Config)
      → checker.unmarshal config ≡ some cfg
      → (new_config checker wrote wrote config signature ni).1 ≡ none
      → (let again =
            load_config checker (new_config checker wrote wrote config signature ni).0.data_dir in
          let Listed = SignedBy checker config signature (keys_or cfg.global.authorized_keys) in
          (Listed → again ≡ accepted cfg) × (¬ Listed → again ≡ rejected signature_failed))
  unfolding load_config parse_and_check_config
  new_config-load_config config signature ni cfg parses h =
      let files = files_of_accepted config signature ni _ refl h in
      let again : load_config checker
            (new_config checker wrote wrote config signature ni).0.data_dir
          ≡ parse_and_check_config checker config signature none =
        ap (load_config checker) files in
      let keys = keys_or cfg.global.authorized_keys in
      (
        λ listed.
            again
            ∙ (parse_and_check_config_lem checker config signature none cfg).1 (parses, listed),
        λ unlisted. again ∙ (elim (Bool-cases (signed_by checker config signature keys)) [
          | inl signed ↦ absurd (unlisted ((signed_by_iff checker config signature keys).0 signed))
          | inr unsigned ↦ rw (parses, unsigned, parse_and_check_config) refl
        ]),
      )
