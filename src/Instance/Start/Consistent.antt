-- ===== src/Instance/Start/Consistent.antt =====
-- The files of a running node and what it tells other nodes of its configuration.
use connectopus.Prelude.{
  ℕ, ◌≡◌, refl, ap, inl, inr, Bool, true, Bool-cases, Option, none, some, Option-cases, Bytes,
  bytes_eq, nat_eq, ◌==◌, get, length,
}
use connectopus.Config.Node.{Config, NodeConfig, Os, Time}
use connectopus.Backends.Registry.{Backends}
use connectopus.Netopus.Updates.{update_config}
use connectopus.Netopus.Lifecycle.{Made, made, refused, new_node}
use connectopus.Instance.Signed.{
  Checker, Checked, accepted, rejected, DataDir, load_config, parse_and_check_config,
  parse_and_check_config_lem, SignedBy, keys_or,
}
use connectopus.Instance.Update.{NodeInstance, NodeCfg, wrote, apply_config, new_config}
use connectopus.Instance.Start.{up, down, start_with, start_node, load_error, data_dir_of, run_node}

module _ (checker : Checker) where
  -- The files hold a configuration that parses, and the node announces it with its time.
  pub record Consistent (ni : NodeInstance) : Type 0 where
    pub cfg_data : Bytes
    pub signature : Bytes
    pub cfg : Config
    pub files : ni.data_dir ≡ record { config_yml = some cfg_data; config_sig = some signature }
    pub parses : checker.unmarshal cfg_data ≡ some cfg
    pub announced : ni.node.config_info ≡ record {
      config_version = cfg.global.last_updated;
      config_data = cfg_data;
      config_signature = signature;
    }

  new_config-Consistent :
      (config signature : Bytes) (ni : NodeInstance)
      → Consistent ni
      → Consistent (new_config checker wrote wrote config signature ni).0
  unfolding new_config apply_config update_config
  new_config-Consistent config signature ni consistent =
      by_check (parse_and_check_config checker config signature ni.cfg.global.authorized_keys) refl
    where
      by_check :
          (c : Checked)
          → parse_and_check_config checker config signature ni.cfg.global.authorized_keys ≡ c
          → Consistent (new_config checker wrote wrote config signature ni).0
      by_check (rejected e) c = rw (c, new_config) consistent
      by_check (accepted cfg) c =
          let (parses, _) =
            (parse_and_check_config_lem checker config signature ni.cfg.global.authorized_keys
                cfg).0
              c in
          rw (c, new_config)
            (record {
              cfg_data = config;
              signature = signature;
              cfg = cfg;
              files = refl;
              parses = parses;
              announced = refl;
            })

  load_config-parts :
      (dir : DataDir) (cfg : Config)
      → load_config checker dir ≡ accepted cfg
      → (d : Bytes) × (sig : Bytes) × (dir.config_yml ≡ some d)
        × (dir.config_sig ≡ some sig)
        × (checker.unmarshal d ≡ some cfg)
        × SignedBy checker d sig (keys_or cfg.global.authorized_keys)
  unfolding load_config
  load_config-parts dir cfg h = elim (Option-cases dir.config_yml) [
    | inl gone ↦ absurd (let clash = rw (gone, load_config) at h in cc)
    | inr (d, yml) ↦ elim (Option-cases dir.config_sig) [
      | inl gone ↦ absurd (let clash = rw (yml, gone, load_config) at h in cc)
      | inr (sig, signed) ↦
          let (parses, by) =
            (parse_and_check_config_lem checker d sig none cfg).0
              (rw (yml, signed, load_config) at h) in
          (d, sig, yml, signed, parses, by)
    ]
  ]

  module _ {R : Type 0} (backends : Backends R) where
    -- What a start leaves: the files, and what the node announces.
    record Started (nc : NodeCfg) (cfg_data signature : Bytes) (ni : NodeInstance) : Type 0 where
      pub files : ni.data_dir ≡ record { config_yml = some cfg_data; config_sig = some signature }
      pub announced : ni.node.config_info ≡ record {
        config_version = nc.config.global.last_updated;
        config_data = cfg_data;
        config_signature = signature;
      }

    start_with-Started :
        (nc : NodeCfg) (node : NodeConfig) (dir : DataDir) (cfg_data signature : Bytes) (now : Time)
        (stack : Bool) (ni : NodeInstance) (mtu : ℕ)
        → dir.config_yml ≡ some cfg_data
        → dir.config_sig ≡ some signature
        → start_with backends nc node dir cfg_data signature now stack ≡ up ni mtu
        → Started nc cfg_data signature ni
    unfolding start_with update_config
    start_with-Started nc node dir cfg_data signature now stack ni mtu yml sig h =
        by_made (new_node node.address nc.identity true now stack) refl
      where
        instance_of : {a b : NodeInstance} {m k : ℕ} → up a m ≡ up b k → a ≡ b
        instance_of e = cc

        both :
            (y s : Option Bytes)
            → y ≡ some cfg_data
            → s ≡ some signature
            → ◌≡◌ {A = DataDir}
                (record { config_yml = y; config_sig = s })
                (record { config_yml = some cfg_data; config_sig = some signature })
        both y s e f = rw (e, f) refl

        by_made :
            (m : Made)
            → new_node node.address nc.identity true now stack ≡ m
            → Started nc cfg_data signature ni
        by_made (refused e) m = absurd (let clash = rw (m, start_with) at h in cc)
        by_made (made n) m =
            rw (← instance_of (rw (m, start_with) at h))
              (record { files = both dir.config_yml dir.config_sig yml sig; announced = refl })

    start_node-Started :
        (nc : NodeCfg) (dir : DataDir) (cfg_data signature : Bytes) (now : Time) (stack : Bool)
        (ni : NodeInstance) (mtu : ℕ)
        → dir.config_yml ≡ some cfg_data
        → dir.config_sig ≡ some signature
        → start_node backends nc dir now stack ≡ up ni mtu
        → Started nc cfg_data signature ni
    unfolding start_node
    start_node-Started nc dir cfg_data signature now stack ni mtu yml sig h =
        elim (Option-cases (get nc.identity nc.config.nodes)) [
          | inl unknown ↦ absurd (let clash = rw (unknown, start_node) at h in cc)
          | inr (node, known) ↦
              start_with-Started nc node dir cfg_data signature now stack ni mtu yml sig
                (rw (known, yml, sig, start_node) at h)
        ]

    -- The configuration that the file config.yml holds now.
    abbrev pub Current : NodeInstance → Config → Type 0
    Current ni cfg =
        (d : Bytes) × (ni.data_dir.config_yml ≡ some d) × (checker.unmarshal d ≡ some cfg)

    -- The instances that a node comes to have: RunNode starts it; NewConfig handles a configuration,
    -- whose files can be written; and the reconciler, which ReconcileNode gives a configuration, ends
    -- the instance and calls Start, here with the configuration that was accepted last.
    pub data Reached : NodeInstance → Type 0 where
      began :
          {ni : NodeInstance} (os : Os) (files : Bytes → DataDir) (datadir identity : Bytes)
          (now : Time) (stack : Bool) (mtu : ℕ)
          → run_node backends checker os files datadir identity now stack ≡ up ni mtu
          → Reached ni
      updated :
          {ni : NodeInstance} (config signature : Bytes)
          → Reached ni
          → Reached (new_config checker wrote wrote config signature ni).0
      restarted :
          {ni ni' : NodeInstance} (cfg : Config) (datadir : Bytes) (now : Time) (stack : Bool)
          (mtu : ℕ)
          → Reached ni
          → Current ni cfg
          → start_node backends
              (record { config = cfg; identity = ni.identity; datadir = datadir })
              ni.data_dir
              now
              stack
            ≡ up ni' mtu
          → Reached ni'

    run_node-began :
        (os : Os) (files : Bytes → DataDir) (datadir identity : Bytes) (now : Time) (stack : Bool)
        (ni : NodeInstance) (mtu : ℕ)
        → run_node backends checker os files datadir identity now stack ≡ up ni mtu
        → Consistent ni
    unfolding run_node
    run_node-began os files datadir identity now stack ni mtu h =
        elim (Bool-cases (length identity == 0)) [
          | inl nameless ↦ absurd (let clash = rw (nameless, run_node) at h in cc)
          | inr named ↦ elim (Option-cases (data_dir_of os datadir identity)) [
            | inl lost ↦ absurd (let clash = rw (named, lost, run_node) at h in cc)
            | inr (dir, found) ↦
                loaded dir (load_config checker (files dir)) refl (rw (named, found, run_node) at h)
          ]
        ]
      where
        loaded :
            (dir : Bytes) (c : Checked)
            → load_config checker (files dir) ≡ c
            → (elim (load_config checker (files dir)) [
              | rejected e ↦ down (load_error e)
              | accepted cfg ↦
                  start_node backends
                    (record { config = cfg; identity = identity; datadir = dir })
                    (files dir)
                    now
                    stack
            ])
              ≡ up ni mtu
            → Consistent ni
        loaded dir (rejected e) c e' = absurd (let clash = rw c at e' in cc)
        loaded dir (accepted cfg) c e' =
            let (d, sig, yml, signed, parses, _) = load_config-parts (files dir) cfg c in
            let s =
              start_node-Started (record { config = cfg; identity = identity; datadir = dir })
                (files dir) d sig now stack ni mtu yml signed (rw c at e') in
            record {
              cfg_data = d;
              signature = sig;
              cfg = cfg;
              files = s.files;
              parses = parses;
              announced = s.announced;
            }

    Reached-Consistent : (ni : NodeInstance) → Reached ni → Consistent ni
    Reached-Consistent ni (began os files datadir identity now stack mtu h) =
        run_node-began os files datadir identity now stack ni mtu h
    Reached-Consistent _ (updated {ni} config signature r) =
        new_config-Consistent config signature ni (Reached-Consistent ni r)
    Reached-Consistent ni' (restarted {ni} cfg datadir now stack mtu r (d, yml, parses) h) =
        let c = Reached-Consistent ni r in
        let s =
          start_node-Started (record { config = cfg; identity = ni.identity; datadir = datadir })
            ni.data_dir d c.signature now stack ni' mtu yml (ap (λ f. f.config_sig) c.files) h in
        record {
          cfg_data = d;
          signature = c.signature;
          cfg = cfg;
          files = s.files;
          parses = parses;
          announced = s.announced;
        }

    -- From RunNode on, through accepted and refused updates whose files can be written and through
    -- restarts with the configuration accepted last, a node announces the configuration that its data
    -- directory holds, with that configuration's time. A restart with any other configuration, such as
    -- the first one of two that were accepted shortly after each other, announces what the files hold
    -- with the time of that other configuration.
    pub run_node-Consistent :
        (ni : NodeInstance)
        → Reached ni
        → Consistent ni
          × ((cfg : Config) (datadir : Bytes) (now : Time) (stack : Bool) (ni' : NodeInstance)
                (mtu : ℕ)
              → start_node backends
                  (record { config = cfg; identity = ni.identity; datadir = datadir })
                  ni.data_dir
                  now
                  stack
                ≡ up ni' mtu
              → (d : Bytes) × (sig : Bytes) × (ni.data_dir
                  ≡ record { config_yml = some d; config_sig = some sig })
                × (ni'.node.config_info ≡ record {
                  config_version = cfg.global.last_updated;
                  config_data = d;
                  config_signature = sig;
                }))
    run_node-Consistent ni r =
        let c = Reached-Consistent ni r in
        (
          c,
          λ cfg datadir now stack ni' mtu h.
              let s =
                start_node-Started
                  (record { config = cfg; identity = ni.identity; datadir = datadir }) ni.data_dir
                  c.cfg_data c.signature now stack ni' mtu (ap (λ f. f.config_yml) c.files)
                  (ap (λ f. f.config_sig) c.files) h in
              (c.cfg_data, c.signature, c.files, s.announced),
        )
