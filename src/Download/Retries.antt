-- ===== src/Download/Retries.antt =====
-- node/download.rs: the attempts of `BlockDownloader::download`, and `HttpTransferError::is_retryable`
-- of error.rs. `execute` is `execute_download` of each attempt: the digest and the plaintext.
use proton_sdk_rs.Prelude.{
  ℕ, zero, suc, ◌+◌, ◌≡◌, refl, ◌⊎◌, inl, inr, Bool, true, false, ◌||◌, Option, none, some, List,
  [], ◌∷◌, ◌++◌, leb, ◌==◌, if◌then◌else◌, Bool-cases, ◌<◌, ◌≤◌, arith, subst,
}
use proton_sdk_rs.Download.{Bytes}

unfoldable pub is_retryable : ℕ → Bool
is_retryable status = status == 408 || status == 425 || status == 429 || leb 500 status

-- The errors that the loop tells apart.
pub data Error : Type 0 where
  decryption : Error
  http : ℕ → Error
  -- `TooManyRequestsException`, with the time that it asks for
  too_many_requests : Option ℕ → Error
  other : Error

pub data Attempt : Type 0 where
  ok : Bytes → Bytes → Attempt
  err : Error → Attempt

-- `requests_throttled` and `requests_unthrottled` of the SDK's events.
pub data Event : Type 0 where
  throttled unthrottled : Event

unfoldable pub is_final : Error → Bool
unfolding is_retryable
is_final decryption = true
is_final (http status) = if is_retryable status then false else true
is_final (too_many_requests after) = false
is_final other = false

abbrev pub retry_after : Error → Option ℕ
retry_after (too_many_requests after) = after
retry_after _ = none

-- The answer, the output and the events.
pub record Download : Type 0 where
  pub answer : Attempt
  pub output : Bytes
  pub events : List Event

abbrev pub max_retries : ℕ
max_retries = 4

abbrev after_success : Bool → List Event → List Event
after_success was_throttled events = if was_throttled then events ++ unthrottled ∷ [] else events

abbrev has_time : Error → Bool
has_time e = elim (retry_after e) [ none ↦ false | some t ↦ true ]

-- The wait before another attempt is announced when the error says how long it takes.
abbrev before_retry : Error → List Event → List Event
before_retry e events = if has_time e then events ++ throttled ∷ [] else events

-- An error that may pass.
pub data IsTransient : Error → Type 0 where
  status : (n : ℕ) → ((n ≡ 408) ⊎ ((n ≡ 425) ⊎ ((n ≡ 429) ⊎ (500 ≤ n)))) → IsTransient (http n)
  too_many : (after : Option ℕ) → IsTransient (too_many_requests after)
  unknown : IsTransient other

-- An error that another attempt would meet again.
pub data IsRefusal : Error → Type 0 where
  undecryptable : IsRefusal decryption
  unavailable :
      (n : ℕ) → (¬ (n ≡ 408)) × ((¬ (n ≡ 425)) × ((¬ (n ≡ 429)) × (n < 500))) → IsRefusal (http n)

may_pass : (n : ℕ) → is_retryable n ≡ true → ((n ≡ 408) ⊎ ((n ≡ 425) ⊎ ((n ≡ 429) ⊎ (500 ≤ n))))
unfolding is_retryable
may_pass n h = ground (arith, h)

cannot_pass :
    (n : ℕ) → is_retryable n ≡ false → (¬ (n ≡ 408)) × ((¬ (n ≡ 425)) × ((¬ (n ≡ 429)) × (n < 500)))
unfolding is_retryable
cannot_pass n h = ground (arith, h)

status_lem :
    (n : ℕ)
    → ((is_retryable n ≡ false) × IsRefusal (http n))
      ⊎ ((is_retryable n ≡ true) × IsTransient (http n))
status_lem n = elim (Bool-cases (is_retryable n)) [
  | inl again ↦ inr (again, status n (may_pass n again))
  | inr final ↦ inl (final, unavailable n (cannot_pass n final))
]

IsRefusal-or_IsTransient :
    (e : Error) → ((is_final e ≡ true) × IsRefusal e) ⊎ ((is_final e ≡ false) × IsTransient e)
unfolding is_final
IsRefusal-or_IsTransient decryption = inl (refl, undecryptable)
IsRefusal-or_IsTransient (http n) = elim (status_lem n) [
  | inl (final, refusal) ↦ inl (rw final refl, refusal)
  | inr (again, transient) ↦ inr (rw again refl, transient)
]
IsRefusal-or_IsTransient (too_many_requests after) = inr (refl, too_many after)
IsRefusal-or_IsTransient other = inr (refl, unknown)

-- The output before the last attempt, after some others.
abbrev pub before_last : ℕ → Bytes → Bytes
before_last zero output = output
before_last (suc n) output = []

module _ (execute : ℕ → Attempt) where
  -- The attempt with this number, which `left` attempts may follow. The output is cleared before
  -- another attempt.
  unfoldable pub attempts : ℕ → ℕ → Bytes → Bool → List Event → Download
  unfolding is_final
  attempts zero attempt output was_throttled events = elim (execute attempt) [
    | ok digest bytes ↦ record {
      answer = ok digest bytes;
      output = output ++ bytes;
      events = after_success was_throttled events;
    }
    | err e ↦ record { answer = err e; output = output; events = events }
  ]
  attempts (suc left) attempt output was_throttled events = elim (execute attempt) [
    | ok digest bytes ↦ record {
      answer = ok digest bytes;
      output = output ++ bytes;
      events = after_success was_throttled events;
    }
    | err e ↦
        let again =
          attempts left (attempt + 1) [] (was_throttled || has_time e) (before_retry e events) in
        if is_final e then record { answer = err e; output = output; events = events } else again
  ]

  unfoldable pub download : Bytes → Download
  unfolding attempts
  download output = attempts max_retries 0 output false []

  Attempt-cases :
      (a : Attempt) → ((d : Bytes) × (b : Bytes) × (a ≡ ok d b)) ⊎ ((e : Error) × (a ≡ err e))
  Attempt-cases (ok d b) = inl (d, b, refl)
  Attempt-cases (err e) = inr (e, refl)

  -- How the last of some attempts ends a download that has this output before it, and how many more
  -- attempts there might have been.
  pub data Ending (attempt left : ℕ) (output : Bytes) : Attempt → Bytes → Type 0 where
    succeeded :
        (digest bytes : Bytes)
        → execute attempt ≡ ok digest bytes
        → Ending attempt left output (ok digest bytes) (output ++ bytes)
    refused :
        (e : Error)
        → execute attempt ≡ err e
        → IsRefusal e
        → Ending attempt left output (err e) output
    exhausted :
        (e : Error)
        → execute attempt ≡ err e
        → IsTransient e
        → left ≡ 0
        → Ending attempt left output (err e) output

  -- The attempts from one number on, up to the last one that is made.
  pub record Made (first left : ℕ) (output : Bytes) (answer : Attempt) (final : Bytes)
      : Type 0 where
    pub extra : ℕ
    pub rest : ℕ
    pub budget : extra + rest ≡ left
    pub failures : (i : ℕ) → i < extra → (e : Error) × (execute (i + first) ≡ err e) × IsTransient e
    pub ending : Ending (extra + first) rest (before_last extra output) answer final

  Made-one :
      (first left : ℕ) (output : Bytes) (answer : Attempt) (final : Bytes)
      → Ending first left output answer final
      → Made first left output answer final
  Made-one first left output answer final h = record {
    extra = 0;
    rest = left;
    budget = omega arith;
    failures = λ i below. absurd (omega (arith, below));
    ending = subst (λ k. Ending k left output answer final) (omega arith) h;
  }

  cleared : (n : ℕ) → before_last n [] ≡ []
  cleared zero = refl
  cleared (suc n) = refl

  one_more :
      (first extra : ℕ) (e : Error)
      → execute first ≡ err e
      → IsTransient e
      → ((i : ℕ) → i < extra → (f : Error) × (execute (i + (first + 1)) ≡ err f) × IsTransient f)
      → (i : ℕ) → i < suc extra
      → (f : Error) × (execute (i + first) ≡ err f) × IsTransient f
  one_more first extra e failed transient more zero below =
      (e, subst (λ k. execute k ≡ err e) (omega arith) failed, transient)
  one_more first extra e failed transient more (suc j) below =
      let (f, met, passing) = more j (omega (arith, below)) in
      (f, subst (λ k. execute k ≡ err f) (omega arith) met, passing)

  Made-more :
      (first left : ℕ) (output : Bytes) (answer : Attempt) (final : Bytes) (e : Error)
      → execute first ≡ err e
      → IsTransient e
      → Made (first + 1) left [] answer final
      → Made first (suc left) output answer final
  Made-more first left output answer final e failed transient m = record {
    extra = suc m.extra;
    rest = m.rest;
    budget = omega (arith, m.budget);
    failures = one_more first m.extra e failed transient m.failures;
    ending =
        subst (λ k. Ending k m.rest [] answer final) (omega arith)
          (subst (λ o. Ending (m.extra + (first + 1)) m.rest o answer final) (cleared m.extra)
            m.ending);
  }

  attempts_lem :
      (left attempt : ℕ) (output : Bytes) (was_throttled : Bool) (events : List Event)
      → Made attempt left output
          (attempts left attempt output was_throttled events).answer
          (attempts left attempt output was_throttled events).output
  unfolding attempts
  attempts_lem zero attempt output w events = elim (Attempt-cases (execute attempt)) [
    | inl (d, b, q) ↦ rw (attempts, q) (Made-one attempt 0 output _ _ (succeeded d b q))
    | inr (e, q) ↦ elim (IsRefusal-or_IsTransient e) [
      | inl (final, refusal) ↦
          rw (attempts, q) (Made-one attempt 0 output _ _ (refused e q refusal))
      | inr (again, transient) ↦
          rw (attempts, q) (Made-one attempt 0 output _ _ (exhausted e q transient refl))
    ]
  ]
  attempts_lem (suc left) attempt output w events = elim (Attempt-cases (execute attempt)) [
    | inl (d, b, q) ↦ rw (attempts, q) (Made-one attempt (suc left) output _ _ (succeeded d b q))
    | inr (e, q) ↦ elim (IsRefusal-or_IsTransient e) [
      | inl (final, refusal) ↦
          rw (attempts, q, final) (Made-one attempt (suc left) output _ _ (refused e q refusal))
      | inr (again, transient) ↦
          rw (attempts, q, again)
            (Made-more attempt left output _ _ e q transient
              (attempts_lem left (attempt + 1) [] (w || has_time e) (before_retry e events)))
    ]
  ]

  -- A block download makes at most five attempts. All of them but the last fail with an error that may
  -- pass: HTTP status 408, 425, 429 or 500 and above, too many requests, or an error that is neither of
  -- the transfer nor of the decryption. The last one succeeds, is refused with a decryption error or any
  -- other status, or is the fifth; its answer is the answer of the download. Its bytes alone are in the
  -- output after a retry, and follow what was there without one.
  pub download_lem :
      (output : Bytes) → Made 0 4 output (download output).answer (download output).output
  unfolding download
  download_lem output = attempts_lem max_retries 0 output false []
