-- ===== src/Semaphore.antt =====
-- crates/proton-drive-sdk/src/utils/semaphore.rs: `FifoFlexibleSemaphore`. One call is one critical
-- section of the mutex. `Notify` objects are numbers; a waiter is released by its `notify_one`.
pub mod Fifo
pub mod Permits
mod Tests
use proton_sdk_rs.Prelude.{
  ℕ, ◌+◌, ◌-◌, ◌^◌, ◌%◌, Bool, true, false, List, [], ◌∷◌, ◌++◌, ltb, if◌then◌else◌,
}
use proton_sdk_rs.Prelude.Int.{ℤ, pos, negsuc, ltb_ℤ, ◌+ℤ◌, ◌-ℤ◌}

-- `n as i32` for a `usize`.
pub as_i32 : ℕ → ℤ
as_i32 n = let r = n % 2 ^ 32 in if ltb r (2 ^ 31) then pos r else negsuc (2 ^ 32 - 1 - r)

-- The two's complement value that an `i32` register keeps of an integer.
pub wrap_i32 : ℤ → ℤ
unfolding as_i32
wrap_i32 (pos n) = as_i32 n
wrap_i32 (negsuc n) = as_i32 (2 ^ 32 - 1 - n % 2 ^ 32)

pub record Waiter : Type 0 where
  pub count : ℕ
  pub notify : ℕ

pub record Semaphore : Type 0 where
  pub max_permits : ℕ
  pub current_count : ℤ
  pub waiting_queue : List Waiter

pub new : ℕ → Semaphore
new max_permits = record {
  max_permits = max_permits;
  current_count = as_i32 max_permits;
  waiting_queue = [];
}

-- `true`: the permits were taken at once; `false`: the caller waits for `notify`.
pub acquire : Semaphore → ℕ → ℕ → Semaphore × Bool
acquire s count notify =
    if ltb_ℤ (pos 0) s.current_count
    then (record s { current_count = wrap_i32 (s.current_count -ℤ as_i32 count) }, true)
    else (
      record s {
        waiting_queue = s.waiting_queue ++ record { count = count; notify = notify } ∷ [];
      },
      false,
    )

pub record Woken : Type 0 where
  pub current_count : ℤ
  pub waiting_queue : List Waiter
  pub notified : List Waiter

-- The `while` loop of `release`: pop and notify while the count is positive.
pub wake : ℤ → List Waiter → Woken
wake c [] = record { current_count = c; waiting_queue = []; notified = [] }
wake c (w ∷ ws) =
    let rest = wake (wrap_i32 (c -ℤ as_i32 w.count)) ws in
    if ltb_ℤ (pos 0) c
    then record rest { notified = w ∷ rest.notified }
    else record { current_count = c; waiting_queue = w ∷ ws; notified = [] }

-- The addition and the cap at `max_permits`.
pub refill : Semaphore → ℕ → ℤ
refill s count =
    let c = wrap_i32 (s.current_count +ℤ as_i32 count) in
    if ltb_ℤ (as_i32 s.max_permits) c then as_i32 s.max_permits else c

pub release : Semaphore → ℕ → Semaphore × List Waiter
release s count =
    let r = wake (refill s count) s.waiting_queue in
    (record s { current_count = r.current_count; waiting_queue = r.waiting_queue }, r.notified)

pub data Call : Type 0 where
  acquires : ℕ → ℕ → Call
  releases : ℕ → Call

pub step : Semaphore → Call → Semaphore
step s (acquires count notify) = (acquire s count notify).0
step s (releases count) = (release s count).0

pub run : Semaphore → List Call → Semaphore
run s [] = s
run s (c ∷ cs) = run (step s c) cs
