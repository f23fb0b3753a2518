-- ===== src/Services/Waits.antt =====
-- The waits of acceptLoop over errors in a row.
use Prim.Native.Nat.{zero, suc}
use connectopus.Prelude.{
  ℕ, ◌+◌, ◌*◌, ◌≤◌, ◌≡◌, refl, ap, ◌∙◌, ◌⊎◌, List, [], ◌∷◌, ◌++◌, replicate, nat_eq, arith,
}
use connectopus.Services.{
  first_delay, max_delay, Accept, accepted, accept_error, next_delay, Act, sleep, run_command,
  accept_loop,
}

-- The wait after k + 1 errors in a row.
abbrev pub delay_after : ℕ → ℕ
delay_after zero = first_delay
delay_after (suc k) = next_delay (delay_after k)

unfoldable pub delays : ℕ → ℕ → List Act
delays k zero = []
delays k (suc n) = sleep (delay_after k) ∷ delays (suc k) n

delay_after-bounds : (k : ℕ) → (first_delay ≤ delay_after k) × (delay_after k ≤ max_delay)
unfolding next_delay
delay_after-bounds zero = (omega arith, omega arith)
delay_after-bounds (suc k) = let (low, high) = delay_after-bounds k in ground arith

delay_after-grows :
    (k : ℕ) → (delay_after (suc k) ≡ max_delay) ⊎ (delay_after (suc k) ≡ delay_after k * 2)
unfolding next_delay
delay_after-grows k = let (low, high) = delay_after-bounds k in ground arith

from_delay :
    (k n : ℕ) (later : List Accept)
    → accept_loop (delay_after k) (replicate n accept_error ++ later)
      ≡ delays (suc k) n ++ accept_loop (delay_after (k + n)) later
unfolding accept_loop delays
from_delay k zero later =
    let same : k ≡ k + 0 = omega arith in ap (λ d. accept_loop (delay_after d) later) same
from_delay k (suc n) later =
    let same : suc k + n ≡ k + suc n = omega arith in
    ap (λ acts. sleep (next_delay (delay_after k)) ∷ acts)
      (from_delay (suc k) n later
        ∙ ap (λ d. delays (suc (suc k)) n ++ accept_loop (delay_after d) later) same)

at_eight : (k : ℕ) → delay_after (8 + k) ≡ max_delay
unfolding next_delay
at_eight zero = refl
at_eight (suc k) =
    let same : 8 + suc k ≡ suc (8 + k) = omega arith in
    ap delay_after same ∙ ap next_delay (at_eight k)

-- Through errors in a row acceptLoop sleeps before it accepts again, from 5 ms on, each time twice as
-- long or a second, and never longer; after nine errors it is a second. A connection runs the
-- command, and the sleeps start over.
pub accept_loop-delays :
    (n : ℕ) (later : List Accept)
    → (accept_loop 0 (replicate n accept_error ++ (accepted ∷ later))
        ≡ delays 0 n ++ (run_command ∷ accept_loop 0 later))
      × ((k : ℕ) → (first_delay ≤ delay_after k) × (delay_after k ≤ max_delay))
      × ((k : ℕ) → (delay_after (suc k) ≡ max_delay) ⊎ (delay_after (suc k) ≡ delay_after k * 2))
      × ((k : ℕ) → delay_after (8 + k) ≡ max_delay)
unfolding accept_loop delays next_delay
accept_loop-delays n later = (by_count n, delay_after-bounds, delay_after-grows, at_eight)
  where
    by_count :
        (n : ℕ)
        → accept_loop 0 (replicate n accept_error ++ (accepted ∷ later))
          ≡ delays 0 n ++ (run_command ∷ accept_loop 0 later)
    by_count zero = refl
    by_count (suc n) = ap (λ acts. sleep first_delay ∷ acts) (from_delay 0 n (accepted ∷ later))
