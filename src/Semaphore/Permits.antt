-- ===== src/Semaphore/Permits.antt =====
-- Accounting: no history of calls on a `FifoFlexibleSemaphore` loses a permit or makes one up.
use proton_sdk_rs.Prelude.{
  ℕ, zero, suc, ◌+◌, ◌-◌, ◌^◌, ◌≤◌, ◌<◌, ◌≡◌, refl, ap, ◌⊎◌, true, false, List, [], ◌∷◌, ◌++◌,
  arith, if◌then◌else◌, inl, inr,
}
use proton_sdk_rs.Prelude.Int.{
  ℤ, pos, negsuc, pos_part, neg_part, ltb_ℤ, ◌+ℤ◌, ◌-ℤ◌, ◌≤ℤ◌, +ℤ_parts, -ℤ_parts, int_laws,
}
use proton_sdk_rs.Semaphore.Fifo.{wake-append, wake-Settled}
use proton_sdk_rs.Semaphore.{
  Semaphore, Waiter, Woken, as_i32, wrap_i32, new, acquire, wake, refill, release,
}

as_i32_of_lt : (n : ℕ) → n < 2 ^ 31 → as_i32 n ≡ pos n
unfolding as_i32
as_i32_of_lt n h = ground arith

-- An `i32` holds what lies in its range.
wrap_i32_of_range : (a : ℤ) → pos_part a < 2 ^ 31 → neg_part a ≤ 2 ^ 31 → wrap_i32 a ≡ a
unfolding wrap_i32 as_i32
wrap_i32_of_range (pos n) h k = ground arith
wrap_i32_of_range (negsuc n) h k = ground arith

abbrev pub permits : List Waiter → ℕ
permits [] = 0
permits (w ∷ ws) = w.count + permits ws

-- Every request in the queue fits an `i32`.
abbrev pub Fits : List Waiter → Type 0
Fits [] = Unit {0}
Fits (w ∷ ws) = (w.count < 2 ^ 31) × Fits ws

Fits-append : (xs ys : List Waiter) → Fits xs → Fits ys → Fits (xs ++ ys)
Fits-append [] ys f g = g
Fits-append (x ∷ xs) ys f g = (f.0, Fits-append xs ys f.1 g)

diff_pos : (a n : ℕ) → a < 2 ^ 31 → pos_part (pos a -ℤ pos n) < 2 ^ 31
unfolding ◌-ℤ◌
diff_pos a n h = ground arith

diff_neg : (a n : ℕ) → n < 2 ^ 31 → neg_part (pos a -ℤ pos n) ≤ 2 ^ 31
unfolding ◌-ℤ◌
diff_neg a n h = ground arith

-- A grant out of a positive count leaves the range of an `i32` alone.
pub take_of_pos :
    (a n : ℕ)
    → 0 < a
    → a < 2 ^ 31
    → n < 2 ^ 31
    → (wrap_i32 (pos a -ℤ as_i32 n) ≡ pos a -ℤ pos n) × (pos_part (pos a -ℤ pos n) < 2 ^ 31)
take_of_pos a n p h k =
    let small : pos_part (pos a -ℤ pos n) < 2 ^ 31 = diff_pos a n h in
    (rw (as_i32_of_lt n k) (wrap_i32_of_range (pos a -ℤ pos n) small (diff_neg a n k)), small)

-- What is handed out is what the count falls by.
abbrev Paid : ℤ → Woken → Type 0
Paid c r =
    (pos_part r.current_count + permits r.notified + neg_part c
      ≡ pos_part c + neg_part r.current_count)
    × Fits r.waiting_queue
    × (pos_part r.current_count < 2 ^ 31)
    × (neg_part r.current_count ≤ 2 ^ 31)

wake-Paid :
    (c : ℤ) (ws : List Waiter)
    → pos_part c < 2 ^ 31
    → neg_part c ≤ 2 ^ 31
    → Fits ws
    → Paid c (wake c ws)
unfolding wake
wake-Paid c [] h low f = (omega arith, f, h, low)
wake-Paid (negsuc b) (w ∷ ws) h low f =
    let none_free : ltb_ℤ (pos 0) (negsuc b) ≡ false = ground arith in
    rw none_free (omega arith, f, h, low)
wake-Paid (pos zero) (w ∷ ws) h low f = (omega arith, f, h, low)
wake-Paid (pos (suc a)) (w ∷ ws) h low f =
    let taken = take_of_pos (suc a) w.count (omega arith) h f.0 in
    let free : ltb_ℤ (pos 0) (pos (suc a)) ≡ true = ground arith in
    rw (free, taken.0)
      (let rest =
          wake-Paid (pos (suc a) -ℤ pos w.count) ws taken.1 (diff_neg (suc a) w.count f.0) f.1 in
        (omega (arith, rest.0, -ℤ_parts (pos (suc a)) (pos w.count)), rest.1, rest.2, rest.3))

-- The state of a semaphore between two calls, with the permits that callers hold.
pub record Books (max_permits held : ℕ) (s : Semaphore) : Type 0 where
  pub limit : s.max_permits ≡ max_permits
  pub balance : pos_part s.current_count + held ≡ max_permits + neg_part s.current_count
  pub fits : Fits s.waiting_queue
  pub low : neg_part s.current_count ≤ 2 ^ 31

-- What callers do: take permits at once, join the queue, or give back permits that they hold, upon
-- which the notified waiters hold theirs.
pub data Turn (held : ℕ) (s : Semaphore) : ℕ → Semaphore → Type 0 where
  granted :
      {t : Semaphore} (count notify : ℕ)
      → count < 2 ^ 31
      → acquire s count notify ≡ (t, true)
      → Turn held s (held + count) t
  queued :
      {t : Semaphore} (count notify : ℕ)
      → count < 2 ^ 31
      → acquire s count notify ≡ (t, false)
      → Turn held s held t
  returned :
      {t : Semaphore} {ws : List Waiter} (count : ℕ)
      → count < 2 ^ 31
      → count ≤ held
      → release s count ≡ (t, ws)
      → Turn held s (held - count + permits ws) t

pub data Turns (max_permits : ℕ) : ℕ → Semaphore → Type 0 where
  start : Turns max_permits 0 (new max_permits)
  next :
      {held held' : ℕ} {s t : Semaphore}
      → Turns max_permits held s
      → Turn held s held' t
      → Turns max_permits held' t

pub new-Books : (max_permits : ℕ) → max_permits < 2 ^ 31 → Books max_permits 0 (new max_permits)
unfolding new
new-Books max_permits h = record {
  limit = refl;
  balance = rw (as_i32_of_lt max_permits h) (omega arith);
  fits = tt;
  low = rw (as_i32_of_lt max_permits h) (omega arith);
}

one_part : (a : ℤ) → (pos_part a ≡ 0) ⊎ (neg_part a ≡ 0)
one_part (pos n) = inr refl
one_part (negsuc n) = inl refl

cap_lem : (m : ℕ) (c : ℤ) → pos_part c ≤ m → (if ltb_ℤ (pos m) c then pos m else c) ≡ c
cap_lem m c h = ground arith

-- With no more given back than is held, the cap changes nothing.
refill_lem :
    {max_permits held : ℕ} (s : Semaphore) (count : ℕ)
    → max_permits < 2 ^ 31
    → count < 2 ^ 31
    → count ≤ held
    → Books max_permits held s
    → (refill s count ≡ s.current_count +ℤ pos count)
      × (pos_part (s.current_count +ℤ pos count) ≤ max_permits)
      × (neg_part (s.current_count +ℤ pos count) ≤ 2 ^ 31)
unfolding refill
refill_lem {max_permits} {held} s count h k l b =
    let c = s.current_count +ℤ pos count in
    let top : pos_part c ≤ max_permits =
      ground (arith, +ℤ_parts s.current_count (pos count), one_part c, one_part s.current_count) in
    let bottom : neg_part c ≤ 2 ^ 31 =
      ground (arith, +ℤ_parts s.current_count (pos count), one_part c, b.low) in
    (
      rw
          (
            as_i32_of_lt count k,
            wrap_i32_of_range c (omega arith) bottom,
            b.limit,
            as_i32_of_lt max_permits h,
          )
          (cap_lem max_permits c top),
      top,
      bottom,
    )

take_lem :
    (c : ℤ) (n : ℕ)
    → pos_part c < 2 ^ 31
    → n < 2 ^ 31
    → ltb_ℤ (pos 0) c ≡ true
    → (wrap_i32 (c -ℤ as_i32 n) ≡ c -ℤ pos n) × (neg_part (c -ℤ pos n) ≤ 2 ^ 31)
take_lem (pos a) n h k e = ((take_of_pos a n (ground arith) h k).0, diff_neg a n k)
take_lem (negsuc a) n h k e = absurd (ground arith)

pub Turn-Books :
    {max_permits held held' : ℕ} {s t : Semaphore}
    → max_permits < 2 ^ 31
    → Books max_permits held s
    → Turn held s held' t
    → Books max_permits held' t
unfolding acquire release
Turn-Books {s = s} h b (granted count notify k e) = ground (
  arith,
  one_part s.current_count,
  take_lem s.current_count count,
  -ℤ_parts s.current_count (pos count),
)
Turn-Books {s = s} h b (queued count notify k e) =
    ground (arith, Fits-append s.waiting_queue (record { count = count; notify = notify } ∷ []))
Turn-Books {s = s} h b (returned count k l e) =
    let filled = refill_lem s count h k l b in
    let paid =
      wake-Paid (refill s count) s.waiting_queue (rw filled.0 (omega (arith, filled.1)))
        (rw filled.0 filled.2) b.fits in
    ground (arith, filled.0, paid.0, paid.1, paid.3, +ℤ_parts s.current_count (pos count))

Turns-Books :
    {max_permits held : ℕ} {s : Semaphore}
    → max_permits < 2 ^ 31
    → Turns max_permits held s
    → Books max_permits held s
Turns-Books {max_permits} h start = new-Books max_permits h
Turns-Books h (next r t) = Turn-Books h (Turns-Books h r) t

-- For a maximum below 2^31, after any history in which each request and each return is below 2^31
-- and nobody gives back more than is held: the count plus the permits held is the maximum, the
-- maximum is as it was, and the count is free of wrap-around.
pub Turns-balance :
    {max_permits held : ℕ} {s : Semaphore}
    → max_permits < 2 ^ 31
    → Turns max_permits held s
    → (s.max_permits ≡ max_permits) × (s.current_count +ℤ pos held ≡ pos max_permits)
Turns-balance {held = held} {s = s} h r =
    let b = Turns-Books h r in (b.limit, omega (int_laws, b.balance))

-- On any state whose maximum and count lie below 2^31 with waiting requests that fit an `i32`, and
-- for a count given back that fits what is held: `release` raises the count by what is given back
-- less what it hands out, hands out to a prefix of the queue in order, and stops only when the
-- queue is empty or no permit is free.
pub release_lem :
    {max_permits held : ℕ} (s : Semaphore) (count : ℕ)
    → max_permits < 2 ^ 31
    → count < 2 ^ 31
    → count ≤ held
    → Books max_permits held s
    → let (t, woken) = release s count in
      (t.current_count +ℤ pos (permits woken) ≡ s.current_count +ℤ pos count)
      × (woken ++ t.waiting_queue ≡ s.waiting_queue)
      × ((t.waiting_queue ≡ []) ⊎ (t.current_count ≤ℤ pos 0))
unfolding release
release_lem s count h k l b =
    let filled = refill_lem s count h k l b in
    let paid =
      wake-Paid (refill s count) s.waiting_queue (rw filled.0 (omega (arith, filled.1)))
        (rw filled.0 filled.2) b.fits in
    (
      omega (int_laws, paid.0, ap pos_part filled.0, ap neg_part filled.0),
      wake-append (refill s count) s.waiting_queue,
      wake-Settled (refill s count) s.waiting_queue,
    )
