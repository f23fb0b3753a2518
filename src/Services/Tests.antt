-- ===== src/Services/Tests.antt =====
-- Two errors before a connection.
use connectopus.Prelude.{ℕ, suc, ◌+◌, ◌*◌, ◌≤◌, ◌⊎◌, ◌≡◌, refl, [], ◌∷◌}
use connectopus.Services.{
  accepted, accept_error, sleep, run_command, accept_loop, first_delay, max_delay, next_delay,
}
use connectopus.Services.Waits.{delay_after, delays, accept_loop-delays}

two_errors :
    accept_loop 0 (accept_error ∷ accept_error ∷ accepted ∷ accept_error ∷ [])
    ≡ sleep 5000000 ∷ sleep 10000000 ∷ run_command ∷ sleep 5000000 ∷ []
unfolding accept_loop
two_errors = refl

accept_loop-delays_example :
    (accept_loop 0 (accept_error ∷ accept_error ∷ accepted ∷ [])
      ≡ sleep 5000000 ∷ sleep 10000000 ∷ run_command ∷ [])
    × ((k : ℕ) → (first_delay ≤ delay_after k) × (delay_after k ≤ max_delay))
    × ((k : ℕ) → (delay_after (suc k) ≡ max_delay) ⊎ (delay_after (suc k) ≡ delay_after k * 2))
    × ((k : ℕ) → delay_after (8 + k) ≡ max_delay)
unfolding accept_loop delays next_delay
accept_loop-delays_example = accept_loop-delays 2 []
