-- ===== src/Backends/Registry.antt =====
-- pkg/backends/backend_registry/backend_registry.go: the kinds of backend by name.
use connectopus.Prelude.{
  ℕ, Bool, if◌then◌else◌, Option, none, some, [], ◌∷◌, Bytes, bytes_eq, GoMap, get, put,
}
use connectopus.Router.Float.{Cost}
use connectopus.Config.{Text, Params}
use connectopus.Backends.Settings.{Crypto, Setting, given, refuse, run_failed, ◌>>=◌}
use connectopus.Backends.Tcp
use connectopus.Backends.Dtls

-- BackendSpec, with what running a backend gives.
pub record BackendSpec (R : Type 0) : Type 0 where
  pub run_func : Cost → Params → R
  pub mtu : ℕ

abbrev pub Backends : Type 0 → Type 0
Backends R = GoMap Bytes (BackendSpec R)

-- LookupBackend
unfoldable pub lookup_backend : {R : Type 0} → Bytes → Backends R → Option (BackendSpec R)
lookup_backend name backends = get name backends

-- RegisterBackend
unfoldable pub register_backend : {R : Type 0} → Bytes → BackendSpec R → Backends R → Backends R
register_backend name spec backends = put name spec backends

-- What RunBackend returns: ErrUnknownBackend or what the backend's function gives.
pub data Started (R : Type 0) : Type 0 where
  unknown_backend : Started R
  started : R → Started R

-- RunBackend
unfoldable pub run_backend : {R : Type 0} → Backends R → Bytes → Cost → Params → Started R
unfolding lookup_backend
run_backend backends name cost params = elim (lookup_backend name backends) [
  | none ↦ unknown_backend
  | some spec ↦ started (spec.run_func cost params)
]

abbrev pub dtls_dialer_name : Bytes
dtls_dialer_name = 100 ∷ 116 ∷ 108 ∷ 115 ∷ 45 ∷ 100 ∷ 105 ∷ 97 ∷ 108 ∷ 101 ∷ 114 ∷ []

abbrev pub dtls_listener_name : Bytes
dtls_listener_name = 100 ∷ 116 ∷ 108 ∷ 115 ∷ 45 ∷ 108 ∷ 105 ∷ 115 ∷ 116 ∷ 101 ∷ 110 ∷ 101 ∷ 114 ∷ []

abbrev pub tcp_dialer_name : Bytes
tcp_dialer_name = 116 ∷ 99 ∷ 112 ∷ 45 ∷ 100 ∷ 105 ∷ 97 ∷ 108 ∷ 101 ∷ 114 ∷ []

abbrev pub tcp_listener_name : Bytes
tcp_listener_name = 116 ∷ 99 ∷ 112 ∷ 45 ∷ 108 ∷ 105 ∷ 115 ∷ 116 ∷ 101 ∷ 110 ∷ 101 ∷ 114 ∷ []

module _ (crypto : Crypto) (text : Text) where
  -- A dialer or a listener that Run is called on.
  pub data Running : Type 0 where
    dtls_dialer : Dtls.Config.Dialer crypto → Running
    dtls_listener : Dtls.Config.Listener crypto → Running
    tcp_dialer : Tcp.Config.Dialer crypto → Running
    tcp_listener : Tcp.Config.Listener crypto → Running

  -- The end of RunDialerFromConfig and of RunListenerFromConfig: the error of Run; `runs` is whether
  -- Run returns none.
  unfoldable pub ran : (Running → Bool) → Running → Setting Running
  ran runs r = if runs r then given r else refuse run_failed

  -- init
  unfoldable pub registered : (Running → Bool) → Backends (Setting Running)
  unfolding register_backend ran
  registered runs =
      register_backend tcp_listener_name
        (record {
          run_func = λ cost p.
              Tcp.Config.listener_from_config crypto text cost p >>= λ l. ran runs (tcp_listener l);
          mtu = Tcp.mtu;
        })
        (register_backend tcp_dialer_name
          (record {
            run_func = λ cost p.
                Tcp.Config.dialer_from_config crypto text cost p >>= λ d. ran runs (tcp_dialer d);
            mtu = Tcp.mtu;
          })
          (register_backend dtls_listener_name
            (record {
              run_func = λ cost p. Dtls.Config.listener_from_config crypto text cost p >>= λ l.
                  ran runs (dtls_listener l);
              mtu = Dtls.mtu;
            })
            (register_backend dtls_dialer_name
              (record {
                run_func = λ cost p. Dtls.Config.dialer_from_config crypto text cost p >>= λ d.
                    ran runs (dtls_dialer d);
                mtu = Dtls.mtu;
              })
              [])))
