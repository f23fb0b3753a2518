-- ===== src/Netopus/Updates/Generated.antt =====
-- The updates that a node generates about itself.
use connectopus.Prelude.{
  suc, ◌+◌, ◌%◌, ◌^◌, ◌≤◌, ◌<◌, ◌≡◌, ◌≢◌, refl, ◌⊎◌, ◌↔◌, inl, inr, true, false, some, [], ◌∷◌,
  Bytes, bytes_eq, nat_eq, ltb, ltb→lt, ltb→le, GoMap, get, In, In-cons_pair, Option-cases,
  Bool-cases, arith,
}
use mathlib.Core.List.Memᴰ
use connectopus.Proto.Ip.{Ip}
use connectopus.Netopus.Node.{Time, NodeInfo, Netopus}
use connectopus.Netopus.Updates.{
  check_configs_converged, generate_routing_update, handle_routing_update,
}
use connectopus.Netopus.Updates.Freshness.{IsNews, forward_iff_IsNews}

not_converged :
    (v : Time) (m : GoMap Ip NodeInfo)
    → (check_configs_converged v m ≡ false)
      ↔ ((node : Ip) × (ni : NodeInfo) × In (node, ni) m × (ni.config_version < v))
unfolding check_configs_converged
not_converged v [] = (λ e. cc, λ (node, ni, i, l). absurd (Memᴰ.not-nil i))
not_converged v ((node, ni) ∷ m) = elim (Bool-cases (ltb ni.config_version v)) [
  | inl old ↦ rw old (λ _. (node, ni, Memᴰ.head refl, ltb→lt _ _ old), λ _. refl)
  | inr new ↦ rw new (
    λ e. let (j, nj, i, l) = (not_converged v m).0 e in (j, nj, Memᴰ.tail i, l),
    λ (j, nj, i, l). elim (In-cons_pair j nj node ni m i) [
      | inl (p, q) ↦
          absurd (let old : ni.config_version < v = rw (← q) l in omega (arith, ltb→le _ _ new))
      | inr later ↦ (not_converged v m).1 (j, nj, later, l)
    ],
  )
]

-- An update carries the node's configuration exactly if some known node reported an older version,
-- and an empty one otherwise.
pub generated_config :
    (n : Netopus)
    → let ru = (generate_routing_update n).1 in
      ((node : Ip) × (ni : NodeInfo) × In (node, ni) n.known_node_info
          × (ni.config_version < n.config_info.config_version))
        × (ru.config_data ≡ n.config_info.config_data)
        × (ru.config_signature ≡ n.config_info.config_signature)
      ⊎ ((node : Ip) (ni : NodeInfo)
          → In (node, ni) n.known_node_info
          → n.config_info.config_version ≤ ni.config_version)
        × (ru.config_data ≡ [])
        × (ru.config_signature ≡ [])
unfolding generate_routing_update
generated_config n =
    let v = n.config_info.config_version in
    let older = not_converged v n.known_node_info in
    elim (Bool-cases (check_configs_converged v n.known_node_info)) [
      | inr spread ↦ inl (older.0 spread, rw spread, rw spread)
      | inl done ↦ inr (
        λ node ni i. elim (Bool-cases (ltb ni.config_version v)) [
          | inl old ↦ absurd (let clash = older.1 (node, ni, i, ltb→lt _ _ old) in cc)
          | inr fine ↦ ltb→le _ _ fine
        ],
        rw done,
        rw done,
      )
    ]

-- Until the uint64 sequence number wraps, a peer that knows of nothing newer than the node's own
-- epoch and last sequence number forwards the update that the node generates next.
pub generated_is_news :
    (ip_string : Ip → Bytes) (n peer : Netopus) (now : Time)
    → suc n.sequence < 2 ^ 64
    → ip_string n.addr ≢ ip_string peer.addr
    → ((ni : NodeInfo)
        → get n.addr peer.known_node_info ≡ some ni
        → (ni.epoch < n.epoch) ⊎ (ni.epoch ≡ n.epoch) × (ni.sequence ≤ n.sequence))
    → let (n', ru) = generate_routing_update n in
      ((handle_routing_update ip_string now ru peer).forward ≡ true)
      × (n'.sequence ≡ ru.update_sequence)
      × (ru.update_sequence ≡ suc n.sequence)
unfolding generate_routing_update
generated_is_news ip_string n peer now fits other known =
    let next : (n.sequence + 1) % 2 ^ 64 ≡ suc n.sequence = omega (arith, fits) in
    let ru = (generate_routing_update n).1 in
    let news : IsNews ru (get n.addr peer.known_node_info) =
      elim (Option-cases (get n.addr peer.known_node_info)) [
        | inl unknown ↦ rw (unknown, next) (ground arith)
        | inr (ni, found) ↦ let le = known ni found in rw (found, next) (ground arith)
      ] in
    (((forward_iff_IsNews ip_string now ru peer).0).1 (other, news), refl, next)
