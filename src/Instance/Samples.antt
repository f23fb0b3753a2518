-- ===== src/Instance/Samples.antt =====
-- Configurations of one byte.
use connectopus.Prelude.{ℕ, true, false, some, [], ◌∷◌, Bytes, bytes_eq, ◌==◌}
use connectopus.Router.Samples.{ip}
use connectopus.Config.Node.{Config, NodeConfig}
use connectopus.Netopus.Samples.{informed}
use connectopus.Instance.Signed.{Checker}
use connectopus.Instance.Update.{NodeInstance}
use connectopus.Instance.Children.{dns_name}

abbrev pub node_with : Bytes → NodeConfig
node_with name = record {
  address = ip 1;
  backends = (name, []) ∷ [];
  services = [];
  tun_devs = [];
  namespaces = [];
  cpctl = record { socket_file = []; no_socket = true; port = 0 };
  dns = record { disable = false };
}

-- The configuration that lists one key.
abbrev pub keyed : ℕ → Config
keyed k = record {
  global = record {
    domain = [];
    subnet = [];
    authorized_keys = some ((k ∷ []) ∷ []);
    last_updated = k;
  };
  nodes = (1 ∷ [], node_with dns_name) ∷ [];
}

-- A reader for which the first byte is the listed key, and a check for which a key signs itself.
abbrev pub checker : Checker
checker = record {
  unmarshal = λ data_. some (elim data_ [ [] ↦ keyed 0 | k ∷ rest ↦ keyed k ]);
  verify = λ data_ signature key. signature == key;
}

abbrev pub instance_ : NodeInstance
instance_ = record {
  cfg = keyed 5;
  identity = 1 ∷ [];
  node = informed;
  ns_reg = [];
  data_dir = record { config_yml = some (5 ∷ []); config_sig = some (5 ∷ []) };
  reconciled = [];
}

abbrev pub update_data : Bytes
update_data = 6 ∷ []

abbrev pub update_signature : Bytes
update_signature = 5 ∷ []
