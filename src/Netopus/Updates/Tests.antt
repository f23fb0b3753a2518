-- ===== src/Netopus/Updates/Tests.antt =====
-- The node fd00::2 has an external name, and fd00::1 reads its update.
use connectopus.Prelude.{
  true, refl, inr, List, In, GoMap, bytes_beq, ◌≡◌, some, none, [], ◌∷◌, Bytes, bytes_eq, get,
  not-In-nil, arith,
}
use mathlib.Core.List.Memᴰ
use connectopus.Proto.Ip.{Ip}
use connectopus.Router.Samples.{ip}
use connectopus.Netopus.Node.{NodeInfo, ExternalNameInfo, Netopus}
use connectopus.Netopus.Names.{lookup_name}
use connectopus.Netopus.Samples.{same_text, node_of, informed, known_two}
use connectopus.Netopus.Updates.{
  handle_routing_update, generate_routing_update, read_update, flood_targets,
}
use connectopus.Netopus.Updates.Generated.{generated_is_news}
use connectopus.Netopus.Updates.Convergence.{
  Wait, cancelled, elapsed, converged, ctx_error, waiting, wait_for_config_convergence, Behind,
  UpToDate, wait_for_config_convergence_lem,
}
use connectopus.Netopus.Updates.Names.{read_update-names}

abbrev two : Netopus
two = record (node_of 2 1) { external_names = (7 ∷ [], record { ip = ip 8; from_node = [] }) ∷ [] }

abbrev one : Netopus
one = node_of 1 2

abbrev seven : Bytes
seven = 7 ∷ []

read_update-names_example :
    (peer' : Netopus) × (read_update same_text 9 (ip 2) (generate_routing_update two).1 one
      ≡ some (peer', flood_targets (some (ip 2)) one.session_info))
    × ((v : ExternalNameInfo)
        → get seven two.external_names ≡ some v
        → lookup_name seven peer' ≡ v.ip)
    × (get seven two.external_names ≡ none → lookup_name seven peer' ≡ lookup_name seven one)
unfolding get
read_update-names_example =
    read_update-names same_text 9 (ip 2) seven two one
      (record {
        has_address = λ e. cc;
        sequence_fits = omega arith;
        other = λ e. cc;
        not_newer = λ ni e. absurd (cc);
        go_map = (not-In-nil seven, tt);
      })
      (λ e. cc, λ k ni i e. absurd (not-In-nil (k, ni) i)) (λ e. cc) (λ r e. absurd (cc))

generated_is_news_example :
    ((handle_routing_update same_text 9 (generate_routing_update (node_of 2 1)).1 informed).forward
      ≡ true)
    × ((generate_routing_update (node_of 2 1)).0.sequence
        ≡ (generate_routing_update (node_of 2 1)).1.update_sequence)
    × ((generate_routing_update (node_of 2 1)).1.update_sequence ≡ 5)
unfolding get bytes_beq
generated_is_news_example =
    generated_is_news same_text (node_of 2 1) informed 9 (omega arith) (λ e. cc)
      (λ ni e. let same : known_two ≡ ni = cc in rw (← same) (inr (refl, omega arith)))

wait_for_config_convergence_lem_example :
    (wait_for_config_convergence 4 (elapsed informed.known_node_info ∷ []) ≡ waiting)
    × ((waits : List Wait)
        → wait_for_config_convergence 4 (elapsed informed.known_node_info ∷ cancelled ∷ waits)
          ≡ ctx_error)
    × ((m : GoMap Ip NodeInfo) (waits : List Wait)
        → UpToDate 4 m
        → wait_for_config_convergence 4 (elapsed informed.known_node_info ∷ elapsed m ∷ waits)
          ≡ converged)
wait_for_config_convergence_lem_example =
    wait_for_config_convergence_lem 4 (informed.known_node_info ∷ []) only_behind
  where
    only_behind : (m : GoMap Ip NodeInfo) → In m (informed.known_node_info ∷ []) → Behind 4 m
    only_behind m (Memᴰ.head e) = rw e (ip 2, known_two, Memᴰ.head refl, omega arith)
    only_behind m (Memᴰ.tail i) = absurd (not-In-nil m i)
