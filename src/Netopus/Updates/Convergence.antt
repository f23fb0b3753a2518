-- ===== src/Netopus/Updates/Convergence.antt =====
-- WaitForConfigConvergence of pkg/netopus/netopus.go: a node waits until no node that it knows has a
-- configuration older than its own.
use connectopus.Prelude.{
  ◌≤◌, ◌<◌, ◌≡◌, refl, inl, inr, true, false, List, [], ◌∷◌, GoMap, In, In-cons, ltb, ltb→lt,
  ltb→le, Bool-cases, ap, not-In-nil, if◌then◌else◌, arith,
}
use mathlib.Core.List.Memᴰ
use connectopus.Proto.Ip.{Ip}
use connectopus.Netopus.Node.{NodeInfo, Time}
use connectopus.Netopus.Updates.{check_configs_converged}

-- What ends a select: the context's end, or the timer, after which the known nodes are these.
pub data Wait : Type 0 where
  cancelled : Wait
  elapsed : GoMap Ip NodeInfo → Wait

-- The function's nil, its ctx.Err(), or a select that nothing has ended yet.
pub data Waited : Type 0 where
  converged ctx_error waiting : Waited

-- WaitForConfigConvergence
unfoldable pub wait_for_config_convergence : Time → List Wait → Waited
unfolding check_configs_converged
wait_for_config_convergence my_version [] = waiting
wait_for_config_convergence my_version (cancelled ∷ waits) = ctx_error
wait_for_config_convergence my_version (elapsed m ∷ waits) =
    let rest = wait_for_config_convergence my_version waits in
    if check_configs_converged my_version m then converged else rest

abbrev pub elapsed_all : List (GoMap Ip NodeInfo) → List Wait → List Wait
elapsed_all [] waits = waits
elapsed_all (m ∷ ms) waits = elapsed m ∷ elapsed_all ms waits

-- A node is known whose configuration is older, and none is.
abbrev pub Behind : Time → GoMap Ip NodeInfo → Type 0
Behind v m = (k : Ip) × (ni : NodeInfo) × In (k, ni) m × (ni.config_version < v)

abbrev pub UpToDate : Time → GoMap Ip NodeInfo → Type 0
UpToDate v m = (k : Ip) (ni : NodeInfo) → In (k, ni) m → v ≤ ni.config_version

check_configs_converged-Behind :
    (v : Time) (m : GoMap Ip NodeInfo) → Behind v m → check_configs_converged v m ≡ false
unfolding check_configs_converged
check_configs_converged-Behind v [] (k, ni, i, old) = absurd (not-In-nil _ i)
check_configs_converged-Behind v ((j, nj) ∷ m) (k, ni, i, old) =
    elim (Bool-cases (ltb nj.config_version v)) [
      | inl t ↦ rw t refl
      | inr t ↦
          let new = ltb→le _ _ t in
          elim ((In-cons (k, ni) (j, nj) m).0 i) [
            | inl e ↦
                let same : ni.config_version ≡ nj.config_version = ap (λ p. p.1.config_version) e in
                absurd (omega arith)
            | inr there ↦ rw t (check_configs_converged-Behind v m (k, ni, there, old))
          ]
    ]

check_configs_converged-UpToDate :
    (v : Time) (m : GoMap Ip NodeInfo) → UpToDate v m → check_configs_converged v m ≡ true
unfolding check_configs_converged
check_configs_converged-UpToDate v [] all = refl
check_configs_converged-UpToDate v ((j, nj) ∷ m) all = elim (Bool-cases (ltb nj.config_version v)) [
  | inl t ↦ let old = ltb→lt _ _ t in let new = all j nj (Memᴰ.head refl) in absurd (omega arith)
  | inr t ↦ rw t (check_configs_converged-UpToDate v m (λ k ni i. all k ni (Memᴰ.tail i)))
]

-- The wait ends with nil at the first second at which no known node has an older configuration,
-- unless the context ends before; before either it goes on.
pub wait_for_config_convergence_lem :
    (v : Time) (earlier : List (GoMap Ip NodeInfo))
    → ((m : GoMap Ip NodeInfo) → In m earlier → Behind v m)
    → (wait_for_config_convergence v (elapsed_all earlier []) ≡ waiting)
      × ((waits : List Wait)
          → wait_for_config_convergence v (elapsed_all earlier (cancelled ∷ waits)) ≡ ctx_error)
      × ((m : GoMap Ip NodeInfo) (waits : List Wait)
          → UpToDate v m
          → wait_for_config_convergence v (elapsed_all earlier (elapsed m ∷ waits)) ≡ converged)
unfolding wait_for_config_convergence
wait_for_config_convergence_lem v [] behind =
    (refl, λ waits. refl, λ m waits all. rw (check_configs_converged-UpToDate v m all) refl)
wait_for_config_convergence_lem v (m ∷ ms) behind =
    let goes_on = check_configs_converged-Behind v m (behind m (Memᴰ.head refl)) in
    rw goes_on (wait_for_config_convergence_lem v ms (λ n i. behind n (Memᴰ.tail i)))
