-- ===== src/Semaphore/Tests.antt =====
-- Runs of the semaphore of utils/semaphore.rs, and its theorems at one of them.
use proton_sdk_rs.Prelude.{◌≡◌, refl, List, [], ◌∷◌, arith}
use proton_sdk_rs.Prelude.Int.{pos, negsuc, ◌+ℤ◌, ◌-ℤ◌}
use proton_sdk_rs.Semaphore.Permits.{Turns, start, next, granted, queued, Turns-balance}
use proton_sdk_rs.Semaphore.{
  Semaphore, Waiter, Call, acquires, as_i32, wrap_i32, new, acquire, wake, refill, release, step,
  run,
}

program : Unit {0}
unfolding as_i32 wrap_i32 new acquire wake refill release step run ◌+ℤ◌ ◌-ℤ◌
program = tt

abbrev patient : Waiter
patient = record { count = 4; notify = 8 }

-- Three permits taken of two; a request for four waits.
abbrev overdrawn : Semaphore
overdrawn = record { max_permits = 2; current_count = negsuc 0; waiting_queue = [] }

abbrev contended : Semaphore
contended = record overdrawn { waiting_queue = patient ∷ [] }

abbrev calls : List Call
calls = acquires 3 7 ∷ acquires 4 8 ∷ []

run-calls : run (new 2) calls ≡ contended
unfolding program
run-calls = refl

release-contended :
    release contended 2
    ≡ (record contended { current_count = negsuc 2; waiting_queue = [] }, patient ∷ [])
unfolding program
release-contended = refl

contended-Turns : Turns 2 3 contended
unfolding program
contended-Turns = next (next start (granted 3 7 (omega arith) refl)) (queued 4 8 (omega arith) refl)

Turns-balance_example : (contended.max_permits ≡ 2) × (contended.current_count +ℤ pos 3 ≡ pos 2)
Turns-balance_example = Turns-balance (omega arith) contended-Turns
