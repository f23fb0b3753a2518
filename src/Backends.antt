-- ===== src/Backends.antt =====
-- pkg/backends/backends.go: the retry logic of RunDialer and the accept loop of RunListener.
pub mod Backoff
pub mod Samples
pub mod Settings
pub mod Registry
pub mod Tcp
pub mod Dtls
mod Tests
use Prim.Native.Nat.{zero, suc}
use connectopus.Prelude.{
  ℕ, ◌*◌, ◌/◌, Bool, true, false, List, [], ◌∷◌, nat_eq, ◌==◌, ltb, if◌then◌else◌,
}

-- A time.Duration in nanoseconds; time.Second and time.Minute.
abbrev pub second : ℕ
second = 1000000000

abbrev pub minute : ℕ
minute = 60000000000

-- The update of nextTimeout before an attempt.
unfoldable pub next_timeout : ℕ → ℕ
next_timeout t =
    if t == 0
    then second
    else (let longer = t * 6 / 5 in if ltb minute longer then minute else longer)

-- How an attempt of the dialer ends; after a connection RunProtocol runs until it is over.
pub data Dial : Type 0 where
  refused dialed : Dial

-- RunDialer from `nextTimeout` on: how long it waits before each attempt.
unfoldable pub run_dialer : ℕ → List Dial → List ℕ
unfolding next_timeout
run_dialer t [] = []
run_dialer t (refused ∷ later) = t ∷ run_dialer (next_timeout t) later
run_dialer t (dialed ∷ later) = t ∷ run_dialer 0 later

-- What the acceptor gives: with the context done or an error the loop of RunListener returns.
pub data Accept : Type 0 where
  accepted : Accept
  context_done accept_error : Accept

-- RunListener: the number of connections that it runs the protocol on.
unfoldable pub run_listener : List Accept → ℕ
run_listener [] = 0
run_listener (accepted ∷ later) = suc (run_listener later)
run_listener (context_done ∷ later) = 0
run_listener (accept_error ∷ later) = 0
