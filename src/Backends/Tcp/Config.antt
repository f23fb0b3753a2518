-- ===== src/Backends/Tcp/Config.antt =====
-- pkg/backends/backend_tcp/backend_tcp.go: what RunDialerFromConfig and RunListenerFromConfig make
-- of a backend's parameters before they call Run.
use connectopus.Prelude.{
  ℕ, Bool, false, Option, none, some, List, [], ◌∷◌, Bytes, bytes_eq, get, if◌then◌else◌,
}
use connectopus.Proto.Ip.{Ip}
use connectopus.Router.Float.{Cost}
use connectopus.Config.{Text, Params, get_host_port, get_ip, get_port, get_bool}
use connectopus.Backends.Settings.{
  Crypto, ConfigError, Setting, given, ◌>>=◌, param, required, if_present, bad_peer, bad_tls,
  bad_insecure_skip_verify, bad_root_ca, no_client_key, bad_client_cert, bad_port, bad_listen_ip,
  no_server_cert, no_server_key, bad_server_cert, bad_require_client_cert, bad_client_ca, peer_name,
  port_name, listen_ip_name, tls_name, insecure_skip_verify_name, root_ca_name, client_cert_name,
  client_key_name, server_cert_name, server_key_name, require_client_cert_name, client_ca_name,
}

module _ (crypto : Crypto) where
  -- The fields of tls.Config that the backend sets; MinVersion is always TLS 1.2.
  pub record TlsConfig : Type 0 where
    pub insecure_skip_verify : Bool
    pub root_cas : Option crypto.Pool
    pub certificates : List crypto.Certificate
    pub verify_client_cert : Bool
    pub client_cas : Option crypto.Pool

  pub record Dialer : Type 0 where
    pub dest_addr : Ip
    pub dest_port : ℕ
    pub cost : Cost
    pub tls : Option TlsConfig

  pub record Listener : Type 0 where
    pub listen_addr : Option Ip
    pub listen_port : ℕ
    pub cost : Cost
    pub tls : Option TlsConfig

  -- The certificate of client_cert with client_key, where client_cert is given.
  unfoldable pub client_certificates : Params → Setting (List crypto.Certificate)
  unfolding if_present
  client_certificates p = if_present client_cert_name p [] λ cert_text. do
    key ← required no_client_key (get client_key_name p)
    cert ← required bad_client_cert (crypto.x509_key_pair cert_text key)
    given (cert ∷ [])

  -- A pool of certificates, where the setting is given.
  unfoldable pub pool_of : Bytes → ConfigError → Params → Setting (Option crypto.Pool)
  unfolding if_present
  pool_of name e p =
      if_present name p none
        λ pem. do pool ← required e (crypto.certs_from_pem pem); given (some pool)

  module _ (text : Text) where
    -- The settings of a dialer with TLS
    unfoldable pub client_settings : Params → Setting TlsConfig
    unfolding client_certificates pool_of if_present
    client_settings p = do
      isv ←
          if_present insecure_skip_verify_name p false
            (λ v. required bad_insecure_skip_verify (text.parse_bool v))
      pool ← pool_of root_ca_name bad_root_ca p
      certs ← client_certificates p
      given (record {
        insecure_skip_verify = isv;
        root_cas = pool;
        certificates = certs;
        verify_client_cert = false;
        client_cas = none;
      })

    unfoldable pub client_tls : Params → Setting (Option TlsConfig)
    unfolding client_settings
    client_tls p = do
      enabled ← param bad_tls (get_bool text tls_name false p)
      if enabled then client_settings p >>= (λ s. given (some s)) else given none

    -- RunDialerFromConfig up to its call of Run
    unfoldable pub dialer_from_config : Cost → Params → Setting Dialer
    unfolding client_tls
    dialer_from_config cost p = do
      peer ← param bad_peer (get_host_port text peer_name p)
      tls ← client_tls p
      given (record { dest_addr = peer.0; dest_port = peer.1; cost = cost; tls = tls })

    -- The settings of a listener with TLS
    unfoldable pub server_settings : Params → Setting TlsConfig
    unfolding pool_of
    server_settings p = do
      cert_text ← required no_server_cert (get server_cert_name p)
      key ← required no_server_key (get server_key_name p)
      cert ← required bad_server_cert (crypto.x509_key_pair cert_text key)
      verify ← param bad_require_client_cert (get_bool text require_client_cert_name false p)
      pool ← pool_of client_ca_name bad_client_ca p
      given (record {
        insecure_skip_verify = false;
        root_cas = none;
        certificates = cert ∷ [];
        verify_client_cert = verify;
        client_cas = pool;
      })

    unfoldable pub server_tls : Params → Setting (Option TlsConfig)
    unfolding server_settings
    server_tls p = do
      enabled ← param bad_tls (get_bool text tls_name false p)
      if enabled then server_settings p >>= (λ s. given (some s)) else given none

    -- listen_ip, where it is given
    unfoldable pub listen_address : Params → Setting (Option Ip)
    unfolding if_present
    listen_address p =
        if_present listen_ip_name p none
          λ v. do ip ← param bad_listen_ip (get_ip text listen_ip_name p); given (some ip)

    -- RunListenerFromConfig up to its call of Run
    unfoldable pub listener_from_config : Cost → Params → Setting Listener
    unfolding listen_address server_tls
    listener_from_config cost p = do
      port ← param bad_port (get_port text port_name p)
      ip ← listen_address p
      tls ← server_tls p
      given (record { listen_addr = ip; listen_port = port; cost = cost; tls = tls })
