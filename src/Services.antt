-- ===== src/Services.antt =====
-- pkg/services/services.go: the start of a service and the waits of its accept loop. shlex.Split is
-- an argument, and running the command is left out.
pub mod Waits
mod Tests
use Prim.Native.Nat.{suc}
use connectopus.Prelude.{
  ℕ, ◌*◌, ◌^◌, ◌%◌, Bool, Option, none, some, List, [], ◌∷◌, Bytes, nat_eq, ◌==◌, ltb,
  if◌then◌else◌,
}
use connectopus.Config.Node.{Service}

-- A time.Duration in nanoseconds: 5 * time.Millisecond and maxDelay.
abbrev pub first_delay : ℕ
first_delay = 5000000

abbrev pub max_delay : ℕ
max_delay = 1000000000

-- What Accept gives: a connection, an error, or anything once the context is done.
pub data Accept : Type 0 where
  accepted accept_error context_done : Accept

-- The update of tempDelay after an error
unfoldable pub next_delay : ℕ → ℕ
next_delay t =
    let longer = if t == 0 then first_delay else t * 2 in
    if ltb max_delay longer then max_delay else longer

-- What acceptLoop does: it sleeps, or it runs the command on a connection.
pub data Act : Type 0 where
  sleep : ℕ → Act
  run_command : Act

-- acceptLoop from a tempDelay on
unfoldable pub accept_loop : ℕ → List Accept → List Act
unfolding next_delay
accept_loop temp_delay [] = []
accept_loop temp_delay (context_done ∷ later) = []
accept_loop temp_delay (accept_error ∷ later) =
    sleep (next_delay temp_delay) ∷ accept_loop (next_delay temp_delay) later
accept_loop temp_delay (accepted ∷ later) = run_command ∷ accept_loop 0 later

-- What RunService returns before it accepts: the port that it listens on and the arguments, or an
-- error of shlex.Split or ListenTCP.
pub data Ran : Type 0 where
  bad_command listen_error : Ran
  listening : (port : ℕ) → (args : List Bytes) → Ran

-- RunService; uint16(service.Port) wraps around.
unfoldable pub run_service : (Bytes → Option (List Bytes)) → (ℕ → Bool) → Service → Ran
run_service split listen service = elim (split service.command) [
  | none ↦ bad_command
  | some args ↦
      let port = service.port % 2 ^ 16 in if listen port then listening port args else listen_error
]
