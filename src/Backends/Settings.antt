-- ===== src/Backends/Settings.antt =====
-- The settings that the backends read from their parameters: the names, the errors, and the
-- certificates. crypto/tls and crypto/x509 are the argument `Crypto`.
use connectopus.Prelude.{Option, none, some, [], ◌∷◌, Bytes, bytes_eq, get}
use connectopus.Config.{Params, Got, got, wrong}

abbrev pub peer_name : Bytes
peer_name = 112 ∷ 101 ∷ 101 ∷ 114 ∷ []

abbrev pub port_name : Bytes
port_name = 112 ∷ 111 ∷ 114 ∷ 116 ∷ []

abbrev pub listen_ip_name : Bytes
listen_ip_name = 108 ∷ 105 ∷ 115 ∷ 116 ∷ 101 ∷ 110 ∷ 95 ∷ 105 ∷ 112 ∷ []

abbrev pub tls_name : Bytes
tls_name = 116 ∷ 108 ∷ 115 ∷ []

abbrev pub insecure_skip_verify_name : Bytes
insecure_skip_verify_name =
    105 ∷ 110 ∷ 115 ∷ 101 ∷ 99 ∷ 117 ∷ 114 ∷ 101 ∷ 95 ∷ 115 ∷ 107 ∷ 105 ∷ 112 ∷ 95 ∷ 118 ∷ 101 ∷ 114
    ∷ 105 ∷ 102 ∷ 121 ∷ []

abbrev pub root_ca_name : Bytes
root_ca_name = 114 ∷ 111 ∷ 111 ∷ 116 ∷ 95 ∷ 99 ∷ 97 ∷ []

abbrev pub client_cert_name : Bytes
client_cert_name = 99 ∷ 108 ∷ 105 ∷ 101 ∷ 110 ∷ 116 ∷ 95 ∷ 99 ∷ 101 ∷ 114 ∷ 116 ∷ []

abbrev pub client_key_name : Bytes
client_key_name = 99 ∷ 108 ∷ 105 ∷ 101 ∷ 110 ∷ 116 ∷ 95 ∷ 107 ∷ 101 ∷ 121 ∷ []

abbrev pub client_cert_key_name : Bytes
client_cert_key_name =
    99 ∷ 108 ∷ 105 ∷ 101 ∷ 110 ∷ 116 ∷ 95 ∷ 99 ∷ 101 ∷ 114 ∷ 116 ∷ 95 ∷ 107 ∷ 101 ∷ 121 ∷ []

abbrev pub server_cert_name : Bytes
server_cert_name = 115 ∷ 101 ∷ 114 ∷ 118 ∷ 101 ∷ 114 ∷ 95 ∷ 99 ∷ 101 ∷ 114 ∷ 116 ∷ []

abbrev pub server_key_name : Bytes
server_key_name = 115 ∷ 101 ∷ 114 ∷ 118 ∷ 101 ∷ 114 ∷ 95 ∷ 107 ∷ 101 ∷ 121 ∷ []

abbrev pub server_cert_key_name : Bytes
server_cert_key_name =
    115 ∷ 101 ∷ 114 ∷ 118 ∷ 101 ∷ 114 ∷ 95 ∷ 99 ∷ 101 ∷ 114 ∷ 116 ∷ 95 ∷ 107 ∷ 101 ∷ 121 ∷ []

abbrev pub require_client_cert_name : Bytes
require_client_cert_name =
    114 ∷ 101 ∷ 113 ∷ 117 ∷ 105 ∷ 114 ∷ 101 ∷ 95 ∷ 99 ∷ 108 ∷ 105 ∷ 101 ∷ 110 ∷ 116 ∷ 95 ∷ 99 ∷ 101
    ∷ 114 ∷ 116 ∷ []

abbrev pub client_ca_name : Bytes
client_ca_name = 99 ∷ 108 ∷ 105 ∷ 101 ∷ 110 ∷ 116 ∷ 95 ∷ 99 ∷ 97 ∷ []

abbrev pub psk_name : Bytes
psk_name = 112 ∷ 115 ∷ 107 ∷ []

abbrev pub type_name : Bytes
type_name = 116 ∷ 121 ∷ 112 ∷ 101 ∷ []

abbrev pub cost_name : Bytes
cost_name = 99 ∷ 111 ∷ 115 ∷ 116 ∷ []

-- tls.X509KeyPair, and AppendCertsFromPEM into a new pool; none is an error or false.
pub record Crypto : Type 1 where
  pub Certificate : Type 0
  pub Pool : Type 0
  pub x509_key_pair : Bytes → Bytes → Option Certificate
  pub certs_from_pem : Bytes → Option Pool

pub data ConfigError : Type 0 where
  bad_peer bad_tls bad_insecure_skip_verify bad_root_ca no_client_key bad_client_cert : ConfigError
  bad_port bad_listen_ip no_server_cert no_server_key bad_server_cert : ConfigError
  bad_require_client_cert bad_client_ca cert_setting_with_psk run_failed : ConfigError

-- What reading some settings gives.
pub data Setting (A : Type 0) : Type 0 where
  refuse : ConfigError → Setting A
  given : A → Setting A

infixl 5 ◌>>=◌
abbrev pub ◌>>=◌ : {A B : Type 0} → Setting A → (A → Setting B) → Setting B
refuse why >>= next = refuse why
given value >>= next = next value

-- An error of a parameter, wrapped.
abbrev pub param : {A : Type 0} → ConfigError → Got A → Setting A
param e (got a) = given a
param e (wrong w) = refuse e

-- A value, or an error.
abbrev pub required : {A : Type 0} → ConfigError → Option A → Setting A
required e (some a) = given a
required e none = refuse e

-- v, ok := params[name]; if ok { ... }
unfoldable pub if_present : {A : Type 0} → Bytes → Params → A → (Bytes → Setting A) → Setting A
if_present name p default f = elim (get name p) [ none ↦ given default | some v ↦ f v ]
