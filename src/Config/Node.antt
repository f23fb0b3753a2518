-- ===== src/Config/Node.antt =====
-- pkg/config/config.go: the configuration of the network and of its nodes, and the directory that a
-- node's is kept in. A string is its bytes; Go's path, os and yaml packages are arguments.
use connectopus.Prelude.{
  ℕ, Bool, Option, none, some, List, [], ◌∷◌, Bytes, nat_eq, ◌==◌, length, GoMap, if◌then◌else◌,
}
use connectopus.Proto.Ip.{Ip}
use connectopus.Proto.Subnet.{Subnet}
use connectopus.Router.Float.{Cost}
use connectopus.Config.{Params}

abbrev pub Time : Type 0
Time = ℕ

pub record Service : Type 0 where
  pub port : ℕ  -- int
  pub command : Bytes

pub record TunDev : Type 0 where
  pub device_name : Bytes
  pub address : Ip
  pub cost : Cost

pub record NamespaceService : Type 0 where
  pub command : Bytes

pub record Namespace : Type 0 where
  pub address : Ip
  pub cost : Cost
  pub services : GoMap Bytes NamespaceService

pub record Cpctl : Type 0 where
  pub socket_file : Bytes
  pub no_socket : Bool
  pub port : ℕ  -- int

pub record Dns : Type 0 where
  pub disable : Bool

-- A key is its text; nil is none.
pub record Global : Type 0 where
  pub domain : Bytes
  pub subnet : Subnet
  pub authorized_keys : Option (List Bytes)
  pub last_updated : Time

pub record NodeConfig : Type 0 where
  pub address : Ip
  pub backends : GoMap Bytes Params
  pub services : GoMap Bytes Service
  pub tun_devs : GoMap Bytes TunDev
  pub namespaces : GoMap Bytes Namespace
  pub cpctl : Cpctl
  pub dns : Dns

pub record Config : Type 0 where
  pub global : Global
  pub nodes : GoMap Bytes NodeConfig

-- os.UserConfigDir, os.Stat, os.ReadDir with IsDir, path.Join and path.IsAbs; none is an error.
pub record Os : Type 0 where
  pub user_config_dir : Option Bytes
  pub stat : Bytes → Bool
  pub read_dir : Bytes → Option (List (Bytes × Bool))
  pub join : List Bytes → Bytes
  pub is_abs : Bytes → Bool

-- "connectopus" and "cpctl.sock"
abbrev pub connectopus_dir : Bytes
connectopus_dir = 99 ∷ 111 ∷ 110 ∷ 110 ∷ 101 ∷ 99 ∷ 116 ∷ 111 ∷ 112 ∷ 117 ∷ 115 ∷ []

abbrev pub default_socket : Bytes
default_socket = 99 ∷ 112 ∷ 99 ∷ 116 ∷ 108 ∷ 46 ∷ 115 ∷ 111 ∷ 99 ∷ 107 ∷ []

module _ (os : Os) where
  -- ExpandFilename
  unfoldable pub expand_filename : Bytes → Bytes → Option Bytes
  expand_filename node_id filename =
      if os.is_abs filename then some filename else (elim os.user_config_dir [
        | none ↦ none
        | some ucd ↦ some (
            os.join (
              ucd
              ∷ connectopus_dir
              ∷ node_id
              ∷ (if length filename == 0 then default_socket else filename)
              ∷ []))
      ])

  -- The directories among the files
  unfoldable pub dirs_of : Bytes → List (Bytes × Bool) → List Bytes
  dirs_of base [] = []
  dirs_of base ((name, is_dir) ∷ files) =
      let rest = dirs_of base files in if is_dir then os.join (base ∷ name ∷ []) ∷ rest else rest

  -- FindDataDirs
  unfoldable pub find_data_dirs : Bytes → Option (List Bytes)
  unfolding dirs_of
  find_data_dirs identity = elim os.user_config_dir [
    | none ↦ none
    | some ucd ↦
        let base = os.join (ucd ∷ connectopus_dir ∷ []) in
        if length identity == 0
        then (elim (os.read_dir base) [ none ↦ none | some files ↦ some (dirs_of base files) ])
        else (let dir = os.join (base ∷ identity ∷ []) in
            if os.stat dir then some (dir ∷ []) else none)
  ]
