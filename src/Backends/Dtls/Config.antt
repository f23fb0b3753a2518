-- ===== src/Backends/Dtls/Config.antt =====
-- What RunDialerFromConfig and RunListenerFromConfig make of a backend's parameters, and the
-- configuration that getDtlsConfig makes of that.
use connectopus.Prelude.{
  ℕ, Bool, true, false, Option, none, some, List, [], ◌∷◌, Bytes, bytes_eq, nat_eq, ◌==◌, get,
  length, if◌then◌else◌,
}
use connectopus.Proto.Ip.{Ip}
use connectopus.Router.Float.{Cost}
use connectopus.Config.{Text, Params, get_host_port, get_port}
use connectopus.Backends.Settings.{
  Crypto, Setting, given, refuse, ◌>>=◌, param, required, if_present, bad_peer,
  bad_insecure_skip_verify, bad_root_ca, bad_port, no_server_cert, no_server_key, bad_server_cert,
  bad_require_client_cert, bad_client_ca, cert_setting_with_psk, peer_name, port_name,
  insecure_skip_verify_name, root_ca_name, client_cert_name, client_cert_key_name, server_cert_name,
  server_key_name, server_cert_key_name, require_client_cert_name, client_ca_name, psk_name,
}
use connectopus.Backends.Tcp.Config.{client_certificates, pool_of, listen_address}

-- The loop over the settings that do not go with a key.
unfoldable pub no_settings : List Bytes → Params → Setting Bool
no_settings [] p = given true
no_settings (name ∷ names) p =
    let rest = no_settings names p in
    elim (get name p) [ some v ↦ refuse cert_setting_with_psk | none ↦ rest ]

module _ (crypto : Crypto) where
  pub record Dialer : Type 0 where
    pub dest_addr : Ip
    pub dest_port : ℕ
    pub cost : Cost
    pub psk : Bytes
    pub insecure_skip_verify : Bool
    pub root_cas : Option crypto.Pool
    pub client_cert : List crypto.Certificate

  -- An empty tls.Certificate is none.
  pub record Listener : Type 0 where
    pub listen_addr : Option Ip
    pub listen_port : ℕ
    pub cost : Cost
    pub psk : Bytes
    pub require_client_cert : Bool
    pub client_cas : Option crypto.Pool
    pub certificate : Option crypto.Certificate

  -- The fields of dtls.Config that depend on the settings: a key, which brings its cipher suite, its
  -- hint and the extended master secret with it, or the certificates.
  pub data DtlsConfig : Type 0 where
    with_psk : (psk : Bytes) → DtlsConfig
    with_certificates :
        (insecure_skip_verify : Bool) (root_cas client_cas : Option crypto.Pool)
        (certificates : List (Option crypto.Certificate)) (verify_client_cert : Bool)
        → DtlsConfig

  abbrev pub certificates_of : List crypto.Certificate → List (Option crypto.Certificate)
  certificates_of [] = []
  certificates_of (c ∷ cs) = some c ∷ certificates_of cs

  -- (Dialer).getDtlsConfig
  unfoldable pub dialer_dtls_config : Dialer → DtlsConfig
  dialer_dtls_config d =
      if length d.psk == 0
      then with_certificates d.insecure_skip_verify d.root_cas none (certificates_of d.client_cert)
          false
      else with_psk d.psk

  -- (Listener).getDtlsConfig
  unfoldable pub listener_dtls_config : Listener → DtlsConfig
  listener_dtls_config l =
      if length l.psk == 0
      then with_certificates false none l.client_cas (l.certificate ∷ []) l.require_client_cert
      else with_psk l.psk

  module _ (text : Text) where
    -- The else branch of the dialer's psk
    unfoldable pub dialer_certificates : Ip × ℕ → Cost → Params → Setting Dialer
    unfolding client_certificates pool_of if_present
    dialer_certificates peer cost p = do
      isv ←
          if_present insecure_skip_verify_name p false
            (λ v. required bad_insecure_skip_verify (text.parse_bool v))
      pool ← pool_of crypto root_ca_name bad_root_ca p
      certs ← client_certificates crypto p
      given (record {
        dest_addr = peer.0;
        dest_port = peer.1;
        cost = cost;
        psk = [];
        insecure_skip_verify = isv;
        root_cas = pool;
        client_cert = certs;
      })

    unfoldable pub dialer_psk : Bytes → Ip × ℕ → Cost → Params → Setting Dialer
    unfolding no_settings
    dialer_psk psk peer cost p = do
      _ ←
          no_settings
            (insecure_skip_verify_name ∷ root_ca_name ∷ client_cert_name ∷ client_cert_key_name
              ∷ [])
            p
      given (record {
        dest_addr = peer.0;
        dest_port = peer.1;
        cost = cost;
        psk = psk;
        insecure_skip_verify = false;
        root_cas = none;
        client_cert = [];
      })

    -- RunDialerFromConfig up to its call of Run
    unfoldable pub dialer_from_config : Cost → Params → Setting Dialer
    unfolding dialer_certificates dialer_psk
    dialer_from_config cost p = do
      peer ← param bad_peer (get_host_port text peer_name p)
      elim (get psk_name p) [
        | some psk ↦ dialer_psk psk peer cost p
        | none ↦ dialer_certificates peer cost p
      ]

    -- The else branch of the listener's psk
    unfoldable pub listener_certificates : ℕ → Option Ip → Cost → Params → Setting Listener
    unfolding pool_of if_present
    listener_certificates port ip cost p = do
      cert_text ← required no_server_cert (get server_cert_name p)
      key ← required no_server_key (get server_key_name p)
      cert ← required bad_server_cert (crypto.x509_key_pair cert_text key)
      verify ←
          if_present require_client_cert_name p false
            (λ v. required bad_require_client_cert (text.parse_bool v))
      pool ← pool_of crypto client_ca_name bad_client_ca p
      given (record {
        listen_addr = ip;
        listen_port = port;
        cost = cost;
        psk = [];
        require_client_cert = verify;
        client_cas = pool;
        certificate = some cert;
      })

    unfoldable pub listener_psk : Bytes → ℕ → Option Ip → Cost → Params → Setting Listener
    unfolding no_settings
    listener_psk psk port ip cost p = do
      _ ←
          no_settings
            (server_cert_name ∷ server_cert_key_name ∷ require_client_cert_name ∷ client_ca_name
              ∷ [])
            p
      given (record {
        listen_addr = ip;
        listen_port = port;
        cost = cost;
        psk = psk;
        require_client_cert = false;
        client_cas = none;
        certificate = none;
      })

    -- RunListenerFromConfig up to its call of Run
    unfoldable pub listener_from_config : Cost → Params → Setting Listener
    unfolding listen_address listener_certificates listener_psk
    listener_from_config cost p = do
      port ← param bad_port (get_port text port_name p)
      ip ← listen_address crypto text p
      elim (get psk_name p) [
        | some psk ↦ listener_psk psk port ip cost p
        | none ↦ listener_certificates port ip cost p
      ]
