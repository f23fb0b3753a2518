-- ===== src/Backends/Tcp/ConfigTests.antt =====
-- A listener with TLS, for a reader that takes every text as true.
use connectopus.Prelude.{◌≡◌, refl, false, none, some, [], ◌∷◌, bytes_eq, bytes_beq, get}
use connectopus.Router.Float.{one_cost}
use connectopus.Config.{Params, get_port, get_bool}
use connectopus.Config.Samples.{one_text}
use connectopus.Backends.Settings.{
  given, port_name, tls_name, server_cert_name, server_key_name, if_present,
}
use connectopus.Backends.Samples.{plain}
use connectopus.Backends.Tcp.Config.{
  Listener, pool_of, server_settings, server_tls, listen_address, listener_from_config,
}

abbrev with_tls : Params
with_tls =
    (port_name, 56 ∷ 48 ∷ [])
    ∷ (tls_name, 49 ∷ [])
    ∷ (server_cert_name, 3 ∷ [])
    ∷ (server_key_name, 4 ∷ [])
    ∷ []

abbrev tls_listener : Listener plain
tls_listener = record {
  listen_addr = none;
  listen_port = 80;
  cost = one_cost;
  tls = some (record {
    insecure_skip_verify = false;
    root_cas = none;
    certificates = (3 ∷ 4 ∷ []) ∷ [];
    verify_client_cert = false;
    client_cas = none;
  });
}

with_tls_listener : listener_from_config plain one_text one_cost with_tls ≡ given tls_listener
unfolding listener_from_config listen_address server_tls server_settings pool_of if_present get_port
    get_bool get bytes_beq
with_tls_listener = refl
