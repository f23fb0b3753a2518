-- ===== src/Instance/Signed.antt =====
-- Configurations with their signatures. The YAML reader and the check of an SSH signature are the
-- argument `Checker`.
use connectopus.Prelude.{
  Bool, true, false, Option, none, some, List, [], ◌∷◌, Bytes, ◌≡◌, refl, ◌⊎◌, inl, inr, Bool-cases,
  Option-cases, In, if◌then◌else◌,
}
use mathlib.Core.List.Memᴰ
use connectopus.Config.Node.{Config}

-- (Config).Unmarshal, none being an error, and whether ssh_jwt.VerifySSHSignature accepts the data
-- and the signature for a key.
pub record Checker : Type 0 where
  pub unmarshal : Bytes → Option Config
  pub verify : Bytes → Bytes → Bytes → Bool

pub data ConfigError : Type 0 where
  parse_failed signature_failed config_unreadable signature_unreadable : ConfigError
  config_unwritable signature_unwritable wrong_type : ConfigError

pub data Checked : Type 0 where
  accepted : Config → Checked
  rejected : ConfigError → Checked

-- The keys of a slice that may be nil.
abbrev pub keys_or : Option (List Bytes) → List Bytes
keys_or none = []
keys_or (some ks) = ks

-- The files of the data directory; none does not exist.
pub record DataDir : Type 0 where
  pub config_yml : Option Bytes
  pub config_sig : Option Bytes

module _ (checker : Checker) where
  -- The loop over the keys
  unfoldable pub signed_by : Bytes → Bytes → List Bytes → Bool
  signed_by cfg_data signature [] = false
  signed_by cfg_data signature (key ∷ auth_keys) =
      let rest = signed_by cfg_data signature auth_keys in
      if checker.verify cfg_data signature key then true else rest

  -- The keys that count: authKeys, or those of the configuration itself where it is nil.
  abbrev pub auth_keys_of : Config → Option (List Bytes) → List Bytes
  auth_keys_of cfg (some keys) = keys
  auth_keys_of cfg none = keys_or cfg.global.authorized_keys

  -- ParseAndCheckConfig
  unfoldable pub parse_and_check_config : Bytes → Bytes → Option (List Bytes) → Checked
  unfolding signed_by
  parse_and_check_config cfg_data signature auth_keys = elim (checker.unmarshal cfg_data) [
    | none ↦ rejected parse_failed
    | some cfg ↦
        if signed_by cfg_data signature (auth_keys_of cfg auth_keys)
        then accepted cfg
        else rejected signature_failed
  ]

  -- LoadConfig
  unfoldable pub load_config : DataDir → Checked
  unfolding parse_and_check_config
  load_config dir = elim dir.config_yml [
    | none ↦ rejected config_unreadable
    | some cfg_data ↦ (elim dir.config_sig [
      | none ↦ rejected signature_unreadable
      | some signature ↦ parse_and_check_config cfg_data signature none
    ])
  ]

  -- Some key of the list accepts the signature.
  abbrev pub SignedBy : Bytes → Bytes → List Bytes → Type 0
  SignedBy cfg_data signature keys =
      (key : Bytes) × In key keys × (checker.verify cfg_data signature key ≡ true)

  pub signed_by_iff :
      (cfg_data signature : Bytes) (keys : List Bytes)
      → (signed_by cfg_data signature keys ≡ true → SignedBy cfg_data signature keys)
        × (SignedBy cfg_data signature keys → signed_by cfg_data signature keys ≡ true)
  unfolding signed_by
  signed_by_iff cfg_data signature [] = (λ h. absurd (cc), λ (k, i, v). elim i [ ])
  signed_by_iff cfg_data signature (key ∷ keys) =
      let (there, back) = signed_by_iff cfg_data signature keys in
      elim (Bool-cases (checker.verify cfg_data signature key)) [
        | inl good ↦ (λ h. (key, Memᴰ.head refl, good), λ s. rw good refl)
        | inr bad ↦ (
          λ h. let (k, i, v) = there (rw (bad, signed_by) at h) in (k, Memᴰ.tail i, v),
          λ s. rw bad (back (other bad s)),
        )
      ]
    where
      other :
          checker.verify cfg_data signature key ≡ false
          → SignedBy cfg_data signature (key ∷ keys)
          → SignedBy cfg_data signature keys
      other bad (k, Memᴰ.head is, v) = absurd (let clash = rw is at v in cc)
      other bad (k, Memᴰ.tail i, v) = (k, i, v)

  -- A configuration is accepted exactly if its data parses as that configuration and a key accepts
  -- the signature of the data: one of the keys that are given, or, where none are given, one of the
  -- keys that the configuration itself lists.
  pub parse_and_check_config_lem :
      (cfg_data signature : Bytes) (auth_keys : Option (List Bytes)) (cfg : Config)
      → (parse_and_check_config cfg_data signature auth_keys ≡ accepted cfg
          → (checker.unmarshal cfg_data ≡ some cfg)
            × SignedBy cfg_data signature (auth_keys_of cfg auth_keys))
        × ((checker.unmarshal cfg_data ≡ some cfg)
              × SignedBy cfg_data signature (auth_keys_of cfg auth_keys)
            → parse_and_check_config cfg_data signature auth_keys ≡ accepted cfg)
  unfolding parse_and_check_config
  parse_and_check_config_lem cfg_data signature auth_keys cfg = (
    λ h. elim (Option-cases (checker.unmarshal cfg_data)) [
      | inl fails ↦ absurd (let clash = rw (fails, parse_and_check_config) at h in cc)
      | inr (c, parsed) ↦ there c parsed (Bool-cases _) h
    ],
    λ (parsed, s).
        let signed = (signed_by_iff cfg_data signature (auth_keys_of cfg auth_keys)).1 s in
        rw (parsed, signed, parse_and_check_config) refl,
  )
    where
      there :
          (c : Config)
          → checker.unmarshal cfg_data ≡ some c
          → (signed_by cfg_data signature (auth_keys_of c auth_keys) ≡ true)
            ⊎ (signed_by cfg_data signature (auth_keys_of c auth_keys) ≡ false)
          → parse_and_check_config cfg_data signature auth_keys ≡ accepted cfg
          → (checker.unmarshal cfg_data ≡ some cfg)
            × SignedBy cfg_data signature (auth_keys_of cfg auth_keys)
      there c parsed (inr unsigned) h =
          absurd (let clash = rw (parsed, unsigned, parse_and_check_config) at h in cc)
      there c parsed (inl signed) h =
          let same : accepted c ≡ accepted cfg = rw (parsed, signed, parse_and_check_config) at h in
          let is_cfg : c ≡ cfg = cc in
          rw (← is_cfg)
            (parsed, (signed_by_iff cfg_data signature (auth_keys_of c auth_keys)).0 signed)

  -- (Node).ParseAndCheckConfig: with the keys of the running configuration, which may be nil.
  unfoldable pub running_check : Config → Bytes → Bytes → Checked
  unfolding parse_and_check_config
  running_check running cfg_data signature =
      parse_and_check_config cfg_data signature running.global.authorized_keys
