-- ===== src/RootRefs/Retry.antt =====
-- `withRootRefsRetry` of packages/service/src/root-refs.ts. The operation runs on a state, `jittered`
-- stands for the random part of a delay, and the delays slept are returned with the answer.
use unicas.Base.{
  ℕ, zero, suc, ◌+◌, ◌-◌, ◌*◌, ◌^◌, ◌≤◌, ◌<◌, min, max, ◌≡◌, refl, subst, Bool-cases, inl, inr,
  List, [], ◌∷◌, Result, ok, err, if◌then◌else◌, leb, arith,
}
use unicas.RootRefs.Types.{Thrown, validation, retryable, other}

pub record RetryOptions : Type 0 where
  pub max_attempts : ℕ
  pub base_delay_ms : ℕ
  pub max_delay_ms : ℕ

abbrev pub default_retry_options : RetryOptions
default_retry_options = record { max_attempts = 5; base_delay_ms = 25; max_delay_ms = 800 }

abbrev pub delay_ms : RetryOptions → ℕ → ℕ
delay_ms options attempt = min options.max_delay_ms (options.base_delay_ms * 2 ^ (attempt - 1))

-- What an attempt answers, the delays slept, and the state.
abbrev pub Answer : Type 0 → Type 0 → Type 0
Answer S A = Result Thrown A × List ℕ × S

-- The attempts that are made from the one with the given number on: how many, and what they answer.
-- The operation runs on the state that the one before left, and another follows a retryable error
-- only, after a delay.
pub data Attempted {S A : Type 0} (operation : S → Result Thrown A × S) (options : RetryOptions)
    (jittered : ℕ → ℕ → ℕ) : ℕ → S → ℕ → Answer S A → Type 0 where
  last :
      (attempt : ℕ) (s : S)
      → Attempted operation options jittered attempt s 1 ((operation s).0, [], (operation s).1)
  again :
      (attempt n : ℕ) (s s' s'' : S) (r : Result Thrown A) (delays : List ℕ)
      → operation s ≡ (err retryable, s')
      → Attempted operation options jittered (attempt + 1) s' n (r, delays, s'')
      → Attempted operation options jittered attempt s (suc n) (
        r,
        jittered attempt (min options.max_delay_ms (options.base_delay_ms * 2 ^ (attempt - 1)))
            ∷ delays,
        s'',
      )

module _ {S A : Type 0} (operation : S → Result Thrown A × S) (options : RetryOptions)
    (jittered : ℕ → ℕ → ℕ) where
  -- What follows an attempt; `next` is the next round of the loop.
  abbrev pub retry_after : ℕ → Result Thrown A × S → (S → Answer S A) → Answer S A
  retry_after attempt (ok a, s) next = (ok a, [], s)
  retry_after attempt (err (validation status code), s) next = (err (validation status code), [], s)
  retry_after attempt (err other, s) next = (err other, [], s)
  retry_after attempt (err retryable, s) next =
      if leb options.max_attempts attempt
      then (err retryable, [], s)
      else let (r, delays, s') = next s in
        (r, jittered attempt (delay_ms options attempt) ∷ delays, s')

  -- The rounds of the loop after `attempt` attempts, on fuel, of which one
  -- round more than the greatest number of attempts is given.
  unfoldable pub attempts : ℕ → ℕ → S → Answer S A
  attempts zero attempt s = (err retryable, [], s)
  attempts (suc fuel) attempt s =
      retry_after (attempt + 1) (operation s) (λ s'. attempts fuel (attempt + 1) s')

  unfoldable pub with_root_refs_retry : S → Answer S A
  unfolding attempts
  with_root_refs_retry s = attempts (suc options.max_attempts) 0 s

  -- The attempts that stood behind an answer, after `before` others.
  pub record Retried (before : ℕ) (s : S) (answer : Answer S A) : Type 0 where
    pub count : ℕ
    pub attempted : Attempted operation options jittered (before + 1) s count answer
    pub at_least_one : 1 ≤ count
    pub at_most : before + count ≤ max (before + 1) options.max_attempts
    pub gives_up : answer.0 ≡ err retryable → options.max_attempts ≤ before + count

  stopped :
      (before : ℕ) (s : S) (answer : Result Thrown A × S)
      → operation s ≡ answer
      → (answer.0 ≡ err retryable → options.max_attempts ≤ before + 1)
      → Retried before s (answer.0, [], answer.1)
  stopped before s answer e h =
      subst (λ (a : Result Thrown A × S). Retried before s (a.0, [], a.1)) e
        (record {
          count = 1;
          attempted = last (before + 1) s;
          at_least_one = omega arith;
          at_most = omega arith;
          gives_up = λ g. h (subst (λ (a : Result Thrown A × S). a.0 ≡ err retryable) e g);
        })

  retry_after-Retried :
      (before : ℕ) (s : S) (answer : Result Thrown A × S) (next : S → Answer S A)
      → operation s ≡ answer
      → ((s' : S) → before + 1 < options.max_attempts → Retried (before + 1) s' (next s'))
      → Retried before s (retry_after (before + 1) answer next)
  retry_after-Retried before s (ok a, s') next e f = stopped before s (ok a, s') e (λ h. cc)
  retry_after-Retried before s (err (validation status code), s') next e f =
      stopped before s (err (validation status code), s') e (λ h. cc)
  retry_after-Retried before s (err other, s') next e f =
      stopped before s (err other, s') e (λ h. cc)
  retry_after-Retried before s (err retryable, s') next e f =
      elim (Bool-cases (leb options.max_attempts (before + 1))) [
        | inl t ↦ rw t (stopped before s (err retryable, s') e (λ h. ground (arith, t)))
        | inr t ↦ rw t (
            let r = f s' (ground (arith, t)) in
            record {
              count = suc r.count;
              attempted =
                  again (before + 1) r.count s s' (next s').2 (next s').0 (next s').1 e r.attempted;
              at_least_one = omega arith;
              at_most = ground (arith, t, r.at_most);
              gives_up = λ h. omega (arith, r.gives_up h);
            })
      ]

  attempts-Retried :
      (fuel before : ℕ) (s : S)
      → 0 < fuel
      → options.max_attempts < before + fuel
      → Retried before s (attempts fuel before s)
  unfolding attempts
  attempts-Retried zero before s p h = absurd (omega (arith, p))
  attempts-Retried (suc fuel) before s p h =
      retry_after-Retried before s (operation s) (λ s'. attempts fuel (before + 1) s') refl
        (λ s' more. attempts-Retried fuel (before + 1) s' (omega arith) (omega arith))

  -- The answer is that of a number of attempts, at least one and at most the greatest number if that is
  -- positive: each runs the operation on the state that the one before left, another follows only a
  -- retryable error, after what `jittered` makes of a delay that doubles up to the greatest delay, and
  -- a retryable error is the answer only when the greatest number of attempts has been made.
  pub with_root_refs_retry_lem : (s : S) → Retried 0 s (with_root_refs_retry s)
  unfolding with_root_refs_retry
  with_root_refs_retry_lem s =
      attempts-Retried (suc options.max_attempts) 0 s (omega arith) (omega arith)
