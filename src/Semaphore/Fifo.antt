-- ===== src/Semaphore/Fifo.antt =====
-- Order: nobody overtakes the queue of a `FifoFlexibleSemaphore`.
use proton_sdk_rs.Prelude.{ℕ, ◌≡◌, refl, ◌⊎◌, inl, false, List, [], ◌∷◌, ◌++◌, arith}
use proton_sdk_rs.Prelude.Int.{ℤ, pos, ◌≤ℤ◌, ◌-ℤ◌}
use proton_sdk_rs.Semaphore.{
  Semaphore, Waiter, Woken, Call, acquires, releases, as_i32, wrap_i32, new, acquire, wake, refill,
  release, step, run,
}

-- While somebody waits, no permit is free.
abbrev pub IsFair : Semaphore → Type 0
IsFair s = (s.waiting_queue ≡ []) ⊎ (s.current_count ≤ℤ pos 0)

abbrev pub Settled : Woken → Type 0
Settled r = (r.waiting_queue ≡ []) ⊎ (r.current_count ≤ℤ pos 0)

pub wake-Settled : (c : ℤ) (ws : List Waiter) → Settled (wake c ws)
unfolding wake
wake-Settled c [] = inl refl
wake-Settled c (w ∷ ws) = ground (arith, wake-Settled (wrap_i32 (c -ℤ as_i32 w.count)) ws)

-- The loop hands out a prefix of the queue, in order.
pub wake-append :
    (c : ℤ) (ws : List Waiter) → (wake c ws).notified ++ (wake c ws).waiting_queue ≡ ws
unfolding wake
wake-append c [] = refl
wake-append c (w ∷ ws) = ground (arith, wake-append (wrap_i32 (c -ℤ as_i32 w.count)) ws)

step-IsFair : (s : Semaphore) (c : Call) → IsFair s → IsFair (step s c)
unfolding step acquire release
step-IsFair s (acquires count notify) f = ground arith
step-IsFair s (releases count) f = wake-Settled (refill s count) s.waiting_queue

run-IsFair : (s : Semaphore) (cs : List Call) → IsFair s → IsFair (run s cs)
unfolding run
run-IsFair s [] f = f
run-IsFair s (c ∷ cs) f = run-IsFair (step s c) cs (step-IsFair s c f)

-- After any history of calls on a new semaphore a waiting queue means that no permit is free, so an
-- `acquire` made while others wait joins the end of the queue and takes nothing.
pub acquire_behind_waiters :
    (max_permits : ℕ) (cs : List Call) (count notify : ℕ) (w : Waiter) (ws : List Waiter)
    → (run (new max_permits) cs).waiting_queue ≡ w ∷ ws
    → acquire (run (new max_permits) cs) count notify ≡ (
      record (run (new max_permits) cs) {
        waiting_queue = w ∷ ws ++ record { count = count; notify = notify } ∷ [];
      },
      false,
    )
unfolding acquire new
acquire_behind_waiters max_permits cs count notify w ws e =
    let f : IsFair (run (new max_permits) cs) = run-IsFair (new max_permits) cs (inl refl) in
    ground arith
