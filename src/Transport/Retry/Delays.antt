-- ===== src/Transport/Retry/Delays.antt =====
-- How long `Open` waits between two attempts.
use llmadapter.Prelude.{
  true, refl, ◌⊎◌, ◌==◌, ℕ, zero, suc, ◌≤◌, ◌<◌, ◌≡◌, Option, none, some, List, [], ◌∷◌, ◌++◌,
  arith, All, All-append, Bool-cases, inl, inr, Option-cases, ◌==◌, string_eq,
}
use llmadapter.Prelude.Int64
use llmadapter.Unified.Errors.{GoError, ApiError, Result, ok, err, as_api}
use llmadapter.Unified.Errors.Cases.{Result-cases}
use llmadapter.Transport.Retry.{
  RetryTransport, retryable, retry_delay, next_backoff, open_attempts, open_stream, start_attempts,
  retry_before_stream,
}

-- A wait as long as the initial backoff or at most the maximal one, or the `RetryAfter` of an API
-- error with which the inner transport answered a call.
abbrev pub IsWait :
    {Request Stream : Type 0} → (ℕ → Option Request → Result Stream) → RetryTransport → ℕ → Type 0
IsWait {Request} inner t d =
    (d ≡ t.initial_backoff)
    ⊎ ((d ≤ t.max_backoff)
        ⊎ ((attempt : ℕ) × (sent : Request) × (e : GoError) × (a : ApiError) × (inner attempt
                (some sent)
              ≡ err e)
            × (as_api e ≡ some a)
            × (Int64.is_pos a.retry_after ≡ true)
            × (d ≡ a.retry_after)))

module _ {Request Stream : Type 0} (inner : ℕ → Option Request → Result Stream)
    (snapshot : Request → Result Request) (done : ℕ → Option GoError) (t : RetryTransport)
    (first : t.initial_backoff < 0x4000_0000_0000_0000)
    (small : t.max_backoff < 0x4000_0000_0000_0000) where
  -- What the loop keeps as its backoff.
  abbrev IsBackoff : ℕ → Type 0
  IsBackoff b = (b ≡ t.initial_backoff) ⊎ (b ≤ t.max_backoff)

  IsBackoff-next : (b : ℕ) → IsBackoff b → next_backoff t b ≤ t.max_backoff
  unfolding next_backoff
  IsBackoff-next b (inl e) = ground (arith, e, first, small)
  IsBackoff-next b (inr h) = ground (arith, h, small)

  IsWait-backoff : (b : ℕ) → IsBackoff b → IsWait inner t b
  IsWait-backoff b (inl e) = inl e
  IsWait-backoff b (inr h) = inr (inl h)

  IsWait-retry_delay :
      (attempt : ℕ) (sent : Request) (e : GoError) (b : ℕ)
      → inner attempt (some sent) ≡ err e
      → IsBackoff b
      → IsWait inner t (retry_delay e b)
  unfolding retry_delay
  IsWait-retry_delay attempt sent e b he h = elim (Option-cases (as_api e)) [
    | inl plain ↦ rw (retry_delay, plain) (IsWait-backoff b h)
    | inr (a, api) ↦ elim (Bool-cases (Int64.is_pos a.retry_after)) [
      | inl pos ↦ rw (retry_delay, api, pos) (inr (inr (attempt, sent, e, a, he, api, pos, refl)))
      | inr zero_wait ↦ rw (retry_delay, api, zero_wait) (IsWait-backoff b h)
    ]
  ]

  delays-IsWait :
      (left attempt : ℕ) (req : Request) (backoff : ℕ) (delays : List ℕ)
      → IsBackoff backoff
      → All (IsWait inner t) delays
      → All
          (IsWait inner t)
          (open_attempts inner snapshot done t left attempt req backoff delays).delays
  unfolding open_attempts
  delays-IsWait zero a req b d hb h = h
  delays-IsWait (suc l) a req b d hb h = elim (Result-cases (inner a (some req))) [
    | inr (stream, he) ↦ rw (open_attempts, he) h
    | inl (e, he) ↦
        let wait = IsWait-retry_delay a req e b he hb in
        let waited = All-append (IsWait inner t) d (retry_delay e b ∷ []) h (wait, tt) in
        elim (Bool-cases (retryable t e)) [
          | inr stops ↦ rw (open_attempts, he, stops) h
          | inl again ↦ elim (Option-cases (done a)) [
            | inl waits ↦
                rw (open_attempts, he, again, waits)
                  (delays-IsWait l (suc a) req (next_backoff t b) (d ++ retry_delay e b ∷ [])
                    (inr (IsBackoff-next b hb)) waited)
            | inr (cancelled, cut) ↦ rw (open_attempts, he, again, cut) waited
          ]
        ]
  ]

  start_attempts-IsWait :
      (r : Result Request) → All (IsWait inner t) (start_attempts inner snapshot done t r).delays
  start_attempts-IsWait (err e) = tt
  start_attempts-IsWait (ok req) = elim (Bool-cases (Int64.lt t.max_retries 0)) [
    | inl negative ↦ rw negative tt
    | inr counted ↦
        rw counted (delays-IsWait t.max_retries 0 req t.initial_backoff [] (inl refl) tt)
  ]

-- Whatever the inner transport answers, each wait of `Open` is the `RetryAfter`, a positive one,
-- of an API error that it answered a call with, or else the initial backoff or at most the maximal
-- one. Both backoffs are below 2 ^ 62, so that doubling does not wrap around.
pub open_stream-delays :
    {Request Stream : Type 0} (inner : ℕ → Option Request → Result Stream)
    (snapshot : Request → Result Request) (done : ℕ → Option GoError) (t : RetryTransport)
    (req : Option Request)
    → t.initial_backoff < 0x4000_0000_0000_0000
    → t.max_backoff < 0x4000_0000_0000_0000
    → All (IsWait inner t) (open_stream inner snapshot done t req).delays
unfolding open_stream
open_stream-delays inner snapshot done t none first small = tt
open_stream-delays inner snapshot done t (some req) first small =
    elim (Bool-cases (t.mode == retry_before_stream)) [
      | inl retries ↦
          rw (open_stream, retries)
            (start_attempts-IsWait inner snapshot done t first small (snapshot req))
      | inr never ↦ rw (open_stream, never) tt
    ]
