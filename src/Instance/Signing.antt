-- ===== src/Instance/Signing.antt =====
-- pkg/connectopus/connectopus.go: SignConfig. The SSH agent and the YAML writer are arguments.
use connectopus.Prelude.{
  Bool, true, Option, none, some, List, [], ◌∷◌, Bytes, ◌≡◌, refl, ap, ◌∙◌, inl, inr, Option-cases,
  Bool-cases, In, if◌then◌else◌,
}
use connectopus.Config.Node.{Config, Time}
use connectopus.Instance.Signed.{
  Checker, accepted, parse_and_check_config, parse_and_check_config_lem,
}
use connectopus.Instance.Update.{NodeInstance, wrote, apply_config, new_config}

-- ssh_jwt.GetSSHAgent, GetMatchingKeys for the text of a key, and SignSSH; none is an error.
pub record Agent : Type 0 where
  pub is_open : Bool
  pub matching_keys : Bytes → Option (List Bytes)
  pub sign : Bytes → Bytes → Option Bytes

pub data SignError : Type 0 where
  no_agent listing_failed no_ssh_keys multiple_ssh_keys marshal_failed sign_failed : SignError

pub data SignResult : Type 0 where
  signature_of : (cfg_data signature : Bytes) → SignResult
  unsigned : SignError → SignResult

-- cfg.Global.LastUpdated = time.Now(), if the time is to be updated
abbrev pub stamped : Bool → Time → Config → Config
stamped update_time now cfg =
    if update_time then record cfg { global = record cfg.global { last_updated = now } } else cfg

-- The configuration with the key that matched.
unfoldable pub sign_with : Agent → (Config → Option Bytes) → Config → Bytes → SignResult
sign_with agent marshal cfg key = elim (marshal cfg) [
  | none ↦ unsigned marshal_failed
  | some cfg_data ↦ (elim (agent.sign cfg_data key) [
    | none ↦ unsigned sign_failed
    | some signature ↦ signature_of cfg_data signature
  ])
]

-- The test of how many keys match.
unfoldable pub sign_if_one : Agent → (Config → Option Bytes) → Config → List Bytes → SignResult
unfolding sign_with
sign_if_one agent marshal cfg [] = unsigned no_ssh_keys
sign_if_one agent marshal cfg (key ∷ []) = sign_with agent marshal cfg key
sign_if_one agent marshal cfg (key ∷ other ∷ keys) = unsigned multiple_ssh_keys

-- SignConfig; `now` is time.Now().
unfoldable pub sign_config :
    Agent → (Config → Option Bytes) → Bytes → Config → Bool → Time → SignResult
unfolding sign_if_one
sign_config agent marshal key_text cfg update_time now =
    if agent.is_open
    then (elim (agent.matching_keys key_text) [
      | none ↦ unsigned listing_failed
      | some keys ↦ sign_if_one agent marshal (stamped update_time now cfg) keys
    ])
    else unsigned no_agent

-- What is written of the configuration reads back, and a signature is accepted for its key.
pub record Agrees (checker : Checker) (agent : Agent) (marshal : Config → Option Bytes) (c : Config)
    : Type 0 where
  pub reads_back : (d : Bytes) → marshal c ≡ some d → checker.unmarshal d ≡ some c
  pub verifies : (d k s : Bytes) → agent.sign d k ≡ some s → checker.verify d s k ≡ true

module _ (checker : Checker) (agent : Agent) (marshal : Config → Option Bytes) where
  sign_with-lem :
      (cfg : Config) (key cfg_data signature : Bytes)
      → sign_with agent marshal cfg key ≡ signature_of cfg_data signature
      → (marshal cfg ≡ some cfg_data) × (agent.sign cfg_data key ≡ some signature)
  unfolding sign_with
  sign_with-lem cfg key cfg_data signature h = elim (Option-cases (marshal cfg)) [
    | inl fails ↦ absurd (let clash = rw (fails, sign_with) at h in cc)
    | inr (d, written) ↦ elim (Option-cases (agent.sign d key)) [
      | inl fails ↦ absurd (let clash = rw (written, fails, sign_with) at h in cc)
      | inr (s, made) ↦
          let same : signature_of d s ≡ signature_of cfg_data signature =
            rw (written, made, sign_with) at h in
          let is_data : d ≡ cfg_data = cc in
          let is_signature : s ≡ signature = cc in
          (written ∙ ap some is_data, (rw is_data at made) ∙ ap some is_signature)
    ]
  ]

  sign_config-key :
      (key_text : Bytes) (cfg : Config) (update_time : Bool) (now : Time)
      (cfg_data signature : Bytes)
      → sign_config agent marshal key_text cfg update_time now ≡ signature_of cfg_data signature
      → (key : Bytes) × (agent.matching_keys key_text ≡ some (key ∷ []))
        × (sign_with agent marshal (stamped update_time now cfg) key
            ≡ signature_of cfg_data signature)
  unfolding sign_config sign_if_one
  sign_config-key key_text cfg update_time now cfg_data signature h =
      elim (Bool-cases agent.is_open) [
        | inr shut ↦ absurd (let clash = rw (shut, sign_config) at h in cc)
        | inl opened ↦ elim (Option-cases (agent.matching_keys key_text)) [
          | inl fails ↦ absurd (let clash = rw (opened, fails, sign_config) at h in cc)
          | inr (keys, listed) ↦ one keys listed (rw (opened, listed, sign_config) at h)
        ]
      ]
    where
      one :
          (keys : List Bytes)
          → agent.matching_keys key_text ≡ some keys
          → sign_if_one agent marshal (stamped update_time now cfg) keys
            ≡ signature_of cfg_data signature
          → (key : Bytes) × (agent.matching_keys key_text ≡ some (key ∷ []))
            × (sign_with agent marshal (stamped update_time now cfg) key
                ≡ signature_of cfg_data signature)
      one [] listed e = absurd (cc)
      one (key ∷ []) listed e = (key, listed, e)
      one (key ∷ other ∷ keys) listed e = absurd (cc)

  -- What SignConfig returns is made with the one key that matches the text, and whoever lists that
  -- key accepts it as the configuration that was signed: ParseAndCheckConfig with a list that has
  -- the key, and NewConfig of a running node whose configuration has it, if its files can be written.
  pub sign_config-accepted :
      (key_text : Bytes) (cfg : Config) (update_time : Bool) (now : Time)
      (cfg_data signature : Bytes)
      → Agrees checker agent marshal (stamped update_time now cfg)
      → sign_config agent marshal key_text cfg update_time now ≡ signature_of cfg_data signature
      → (key : Bytes) × (agent.matching_keys key_text ≡ some (key ∷ []))
        × ((keys : List Bytes)
            → In key keys
            → (parse_and_check_config checker cfg_data signature (some keys)
                ≡ accepted (stamped update_time now cfg))
              × ((ni : NodeInstance)
                  → ni.cfg.global.authorized_keys ≡ some keys
                  → (new_config checker wrote wrote cfg_data signature ni).1 ≡ none))
  unfolding new_config apply_config
  sign_config-accepted key_text cfg update_time now cfg_data signature agrees h =
      let (key, only, e) = sign_config-key key_text cfg update_time now cfg_data signature h in
      let (written, made) = sign_with-lem (stamped update_time now cfg) key cfg_data signature e in
      let check = λ (keys : List Bytes) (listed : In key keys).
        (parse_and_check_config_lem checker cfg_data signature (some keys)
            (stamped update_time now cfg)).1
          (agrees.reads_back _ written, (key, listed, agrees.verifies _ _ _ made)) in
      (
        key,
        only,
        λ keys listed. (
          check keys listed,
          λ ni known.
              let running =
                ap (parse_and_check_config checker cfg_data signature) known ∙ check keys listed in
              rw (running, new_config) refl,
        ),
      )
