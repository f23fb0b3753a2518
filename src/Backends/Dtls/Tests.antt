-- ===== src/Backends/Dtls/Tests.antt =====
-- A listener with an empty key.
use connectopus.Prelude.{◌≡◌, refl, false, none, [], ◌∷◌, bytes_eq, bytes_beq, get}
use connectopus.Router.Float.{one_cost}
use connectopus.Config.{Params, get_port}
use connectopus.Config.Samples.{one_text}
use connectopus.Backends.Settings.{given, port_name, psk_name, if_present}
use connectopus.Backends.Samples.{plain}
use connectopus.Backends.Tcp.Config.{listen_address}
use connectopus.Backends.Dtls.Config.{
  Listener, with_certificates, listener_dtls_config, no_settings, listener_psk,
  listener_from_config,
}

abbrev empty_key : Params
empty_key = (port_name, 56 ∷ 48 ∷ []) ∷ (psk_name, []) ∷ []

abbrev open_listener : Listener plain
open_listener = record {
  listen_addr = none;
  listen_port = 80;
  cost = one_cost;
  psk = [];
  require_client_cert = false;
  client_cas = none;
  certificate = none;
}

-- The empty key is taken for a key, and then for none.
empty_key_listener : listener_from_config plain one_text one_cost empty_key ≡ given open_listener
unfolding listener_from_config listener_psk listen_address no_settings if_present get_port get
    bytes_beq
empty_key_listener = refl

empty_key_config :
    listener_dtls_config plain open_listener ≡ with_certificates false none none (none ∷ []) false
unfolding listener_dtls_config
empty_key_config = refl
