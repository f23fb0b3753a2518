-- ===== src/Backends/Backoff.antt =====
-- The waits of RunDialer.
use Prim.Native.Nat.{zero, suc}
use connectopus.Prelude.{
  ℕ, ◌≤◌, ◌≡◌, refl, ap, ◌⊎◌, inl, inr, List, [], ◌∷◌, ==-cases, nat_eq, arith,
}
use connectopus.Backends.{second, minute, next_timeout, Dial, refused, dialed, run_dialer}

-- The wait after this many refusals in a row.
unfoldable pub wait_after : ℕ → ℕ
unfolding next_timeout
wait_after zero = 0
wait_after (suc k) = next_timeout (wait_after k)

abbrev IsWait : ℕ → Type 0
IsWait t = (t ≡ 0) ⊎ (second ≤ t) × (t ≤ minute)

next_timeout-bounds :
    (t : ℕ)
    → IsWait t
    → (second ≤ next_timeout t) × (t ≤ next_timeout t) × (next_timeout t ≤ minute)
unfolding next_timeout
next_timeout-bounds t h = ground arith

wait_after-IsWait : (k : ℕ) → IsWait (wait_after k)
unfolding wait_after
wait_after-IsWait zero = inl refl
wait_after-IsWait (suc k) =
    let b = next_timeout-bounds (wait_after k) (wait_after-IsWait k) in inr (b.0, b.2)

wait_after-minute : (k : ℕ) → 24 ≤ k → wait_after k ≡ minute
unfolding wait_after next_timeout
wait_after-minute zero h = absurd (omega arith)
wait_after-minute (suc k) h = elim (==-cases k 23) [
  | inl (_, e) ↦ rw e refl
  | inr (_, ne) ↦
      let before : wait_after k ≡ minute = wait_after-minute k (omega (arith, ne)) in
      rw (before, wait_after) refl
]

-- How many refusals in a row stand before each attempt, j before the first.
unfoldable pub streaks : ℕ → List Dial → List ℕ
streaks j [] = []
streaks j (refused ∷ later) = j ∷ streaks (suc j) later
streaks j (dialed ∷ later) = j ∷ streaks 0 later

unfoldable pub waits_after : List ℕ → List ℕ
unfolding wait_after
waits_after [] = []
waits_after (j ∷ js) = wait_after j ∷ waits_after js

run_dialer-from :
    (j : ℕ) (attempts : List Dial)
    → run_dialer (wait_after j) attempts ≡ waits_after (streaks j attempts)
unfolding run_dialer streaks waits_after wait_after
run_dialer-from j [] = refl
run_dialer-from j (refused ∷ later) = ap (λ r. wait_after j ∷ r) (run_dialer-from (suc j) later)
run_dialer-from j (dialed ∷ later) = ap (λ r. wait_after j ∷ r) (run_dialer-from 0 later)

-- Whatever the attempts come to, RunDialer waits before each of them as long as the number of
-- refusals in a row before it says: not at all after none, and after one or more for a second to a
-- minute, never shorter than after one refusal less, and for a minute after 24 or more.
pub run_dialer-backoff :
    (attempts : List Dial)
    → (run_dialer 0 attempts ≡ waits_after (streaks 0 attempts))
      × (wait_after 0 ≡ 0)
      × ((k : ℕ) → (second ≤ wait_after (suc k)) × (wait_after (suc k) ≤ minute))
      × ((k : ℕ) → wait_after k ≤ wait_after (suc k))
      × ((k : ℕ) → 24 ≤ k → wait_after k ≡ minute)
unfolding wait_after
run_dialer-backoff attempts = (
  run_dialer-from 0 attempts,
  refl,
  λ k. let b = next_timeout-bounds (wait_after k) (wait_after-IsWait k) in (b.0, b.2),
  λ k. (next_timeout-bounds (wait_after k) (wait_after-IsWait k)).1,
  wait_after-minute,
)
