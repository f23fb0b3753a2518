-- ===== src/Netopus/Updates/Once.antt =====
-- That a node forwards no routing update twice before monitorDeadNodes has forgotten its origin.
use connectopus.Prelude.{
  ℕ, ◌+◌, ◌≤◌, ◌<◌, ◌≡◌, refl, ap, ◌∙◌, ◌⊎◌, inl, inr, true, false, Option, none, some, List, [],
  ◌∷◌, Bytes, bytes_eq, GoMap, get, ==-cases, ltb, le→ltb, Bool-cases, arith,
}
use connectopus.Proto.Ip.{Ip}
use connectopus.Netopus.Node.{Time, minute, NodeInfo, Netopus, RoutingUpdate}
use connectopus.Netopus.Updates.{handle_routing_update, prune_known, monitor_dead_nodes}
use connectopus.Netopus.Updates.Freshness.{
  IsNews, Knows, Knows-handle, Knows-not_news, handle-addr, forward_iff_IsNews,
}

-- What changes knownNodeInfo: an update that is handled, and a round of monitorDeadNodes.
pub data Event : Type 0 where
  heard : Time → RoutingUpdate → Event
  round : Time → Event

-- A round at this time does not find the origin silent for more than a minute.
abbrev pub NotSilent : Time → Ip → Netopus → Type 0
NotSilent now origin n =
    (ni : NodeInfo) → get origin n.known_node_info ≡ some ni → now ≤ ni.last_update + minute

-- An entry that is young enough survives the round.
get-prune_known_young :
    (now : Time) (origin : Ip) (ni : NodeInfo) (m : GoMap Ip NodeInfo)
    → get origin m ≡ some ni
    → now ≤ ni.last_update + minute
    → get origin (prune_known now m) ≡ some ni
unfolding get prune_known
get-prune_known_young now origin ni [] g young = absurd (cc)
get-prune_known_young now origin ni ((k, i) ∷ m) g young = elim (==-cases k origin) [
  | inl (t, _) ↦
      let same : some i ≡ some ni = rw (t, get) at g in
      let is_ni : i ≡ ni = cc in
      let live : ltb (i.last_update + minute) now ≡ false = le→ltb _ _ (rw is_ni young) in
      rw (live, t) same
  | inr (t, _) ↦
      let rest = get-prune_known_young now origin ni m (rw (t, get) at g) young in
      elim (Bool-cases (ltb (i.last_update + minute) now)) [
        | inl dead ↦ rw dead rest
        | inr live ↦ rw (live, t) rest
      ]
]

module _ (ip_string : Ip → Bytes) where
  unfoldable pub run : List Event → Netopus → Netopus
  unfolding handle_routing_update monitor_dead_nodes
  run [] n = n
  run (heard now ru ∷ later) n = run later (handle_routing_update ip_string now ru n).node
  run (round now ∷ later) n = run later (monitor_dead_nodes now n)

  -- No round finds the origin silent for more than a minute.
  abbrev pub Alive : Ip → List Event → Netopus → Type 0
  Alive origin [] n = Unit
  Alive origin (heard now ru ∷ later) n =
      Alive origin later (handle_routing_update ip_string now ru n).node
  Alive origin (round now ∷ later) n =
      NotSilent now origin n × Alive origin later (monitor_dead_nodes now n)

  Knows-run :
      (origin : Ip) (e s : ℕ) (later : List Event) (n : Netopus)
      → Alive origin later n
      → Knows origin e s n
      → Knows origin e s (run later n)
  unfolding run monitor_dead_nodes
  Knows-run origin e s [] n alive k = k
  Knows-run origin e s (heard now ru ∷ later) n alive k =
      Knows-run origin e s later (handle_routing_update ip_string now ru n).node alive
        (Knows-handle ip_string origin e s now ru n k)
  Knows-run origin e s (round now ∷ later) n (young, alive) (ni, g, le) =
      Knows-run origin e s later (monitor_dead_nodes now n) alive
        (ni, get-prune_known_young now origin ni n.known_node_info g (young ni g), le)

  run-addr : (later : List Event) (n : Netopus) → (run later n).addr ≡ n.addr
  unfolding run monitor_dead_nodes
  run-addr [] n = refl
  run-addr (heard now ru ∷ later) n =
      run-addr later (handle_routing_update ip_string now ru n).node
      ∙ handle-addr ip_string now ru n
  run-addr (round now ∷ later) n = run-addr later (monitor_dead_nodes now n)

  -- What is news to a node that knows the origin is news to one that does not.
  IsNews-unknown : (ru : RoutingUpdate) (o : Option NodeInfo) → IsNews ru o → IsNews ru none
  IsNews-unknown ru none h = h
  IsNews-unknown ru (some ni) h = ground arith

  -- Once a node has forwarded an update, it forwards no update of that origin that is not newer than
  -- this one, in particular not this one, whatever updates it handles in between, as long as no round
  -- of monitorDeadNodes finds the origin silent for more than a minute. But when the node does not
  -- know the origin any more, it forwards the same update again.
  pub forwarded_once :
      (now : Time) (ru : RoutingUpdate) (n : Netopus) (later : List Event) (now' : Time)
      → (handle_routing_update ip_string now ru n).forward ≡ true
      → let after = (handle_routing_update ip_string now ru n).node in
        ((old : RoutingUpdate)
          → Alive ru.origin later after
          → old.origin ≡ ru.origin
          → (old.update_epoch < ru.update_epoch)
            ⊎ (old.update_epoch ≡ ru.update_epoch) × (old.update_sequence ≤ ru.update_sequence)
          → (handle_routing_update ip_string now' old (run later after)).forward ≡ false)
        × (get ru.origin (run later after).known_node_info ≡ none
            → (handle_routing_update ip_string now' ru (run later after)).forward ≡ true)
  forwarded_once now ru n later now' t =
      let after = (handle_routing_update ip_string now ru n).node in
      let (foreign, news) = ((forward_iff_IsNews ip_string now ru n).0).0 t in
      (
        λ old alive same le.
            let known : Knows old.origin old.update_epoch old.update_sequence after = rw same (
              record {
                name = ru.node_name;
                epoch = ru.update_epoch;
                sequence = ru.update_sequence;
                config_version = ru.config_version;
                last_update = now;
              },
              (forward_iff_IsNews ip_string now ru n).2 t,
              le,
            ) in
            Knows-not_news ip_string now' old (run later after) (
              Knows-run old.origin old.update_epoch old.update_sequence later after (rw same alive)
                known),
        λ forgotten.
            let same_addr = run-addr later after ∙ handle-addr ip_string now ru n in
            ((forward_iff_IsNews ip_string now' ru (run later after)).0).1 (
              λ e. foreign (e ∙ ap ip_string same_addr),
              rw forgotten (IsNews-unknown ru (get ru.origin n.known_node_info) news),
            ),
      )
