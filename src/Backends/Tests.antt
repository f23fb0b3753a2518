-- ===== src/Backends/Tests.antt =====
-- RunDialer with a refusal before a connection.
use connectopus.Prelude.{ℕ, suc, ◌≤◌, ◌≡◌, List, [], ◌∷◌}
use connectopus.Backends.{second, minute, Dial, refused, dialed, run_dialer}
use connectopus.Backends.Backoff.{wait_after, waits_after, streaks, run_dialer-backoff}

abbrev attempts : List Dial
attempts = refused ∷ dialed ∷ refused ∷ []

run_dialer-backoff_example :
    (run_dialer 0 attempts ≡ waits_after (0 ∷ 1 ∷ 0 ∷ []))
    × (wait_after 0 ≡ 0)
    × ((k : ℕ) → (second ≤ wait_after (suc k)) × (wait_after (suc k) ≤ minute))
    × ((k : ℕ) → wait_after k ≤ wait_after (suc k))
    × ((k : ℕ) → 24 ≤ k → wait_after k ≡ minute)
unfolding streaks
run_dialer-backoff_example = run_dialer-backoff attempts
