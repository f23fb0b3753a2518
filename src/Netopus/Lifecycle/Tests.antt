-- ===== src/Netopus/Lifecycle/Tests.antt =====
-- A node with a DTLS dialer and a TCP listener.
use connectopus.Prelude.{true, ℕ, ◌≤◌, ◌<◌, ◌≡◌, [], ◌∷◌, List, Bytes}
use connectopus.Config.Samples.{one_text}
use connectopus.Backends.Samples.{plain}
use connectopus.Backends.Registry.{registered, dtls_dialer_name, tcp_listener_name}
use connectopus.Netopus.Lifecycle.{least_mtu}
use connectopus.Netopus.Lifecycle.Mtu.{HasMtu, least_mtu_lem}

abbrev types : List Bytes
types = tcp_listener_name ∷ dtls_dialer_name ∷ []

least_mtu_lem_example :
    let backends = registered plain one_text (λ r. true) in
    (((m : ℕ) → ¬ HasMtu backends types m) → least_mtu backends types 1500 ≡ 1500)
    × ((m : ℕ)
        → HasMtu backends types m
        → m < 65535
        → (least_mtu backends types 1500 ≤ m)
          × HasMtu backends types (least_mtu backends types 1500))
least_mtu_lem_example = least_mtu_lem (registered plain one_text (λ r. true)) types 1500
