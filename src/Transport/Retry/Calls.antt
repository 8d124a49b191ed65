-- ===== src/Transport/Retry/Calls.antt =====
-- How often `Open` calls the inner transport, and what it returns.
use llmadapter.Prelude.{
  ℕ, zero, suc, ◌+◌, ◌<◌, ◌≤◌, ◌≡◌, ◌⊎◌, inl, inr, refl, sym, subst, ◌∙◌, ap, true, false, Option,
  none, some, List, [], arith, ◌==◌, string_eq,
}
use llmadapter.Prelude.Int64
use llmadapter.Unified.Errors.{GoError, Result, ok, err}
use llmadapter.Transport.Retry.{
  RetryTransport, retryable, retry_before_stream, open_attempts, open_stream,
}

module _ {Request Stream : Type 0} (inner : ℕ → Option Request → Result Stream)
    (snapshot : Request → Result Request) (done : ℕ → Option GoError) (t : RetryTransport)
    (failure : ℕ → GoError) where
  -- The attempt fails, may be tried again, and the wait after it is not cut short.
  abbrev Fails : Request → ℕ → Type 0
  Fails req i =
      (inner i (some req) ≡ err (failure i)) × (retryable t (failure i) ≡ true) × (done i ≡ none)

  -- An answer that is not followed by another attempt, whatever number of retries is left.
  abbrev IsFinal : Result Stream → Type 0
  IsFinal (ok stream) = Unit
  IsFinal (err e) = retryable t e ≡ false

  stops :
      (left attempt : ℕ) (req : Request) (backoff : ℕ) (delays : List ℕ) (r : Result Stream)
      → inner attempt (some req) ≡ r
      → (0 ≡ left) ⊎ IsFinal r
      → let o = open_attempts inner snapshot done t left attempt req backoff delays in
        (o.result ≡ some r) × (o.calls ≡ suc attempt)
  unfolding open_attempts
  stops zero a req b d r hi he = (ap some hi, refl)
  stops (suc l) a req b d r hi (inl e) = absurd (omega (arith, e))
  stops (suc l) a req b d (ok stream) hi (inr u) = rw (open_attempts, hi) (refl, refl)
  stops (suc l) a req b d (err e) hi (inr h) = rw (open_attempts, hi, h) (refl, refl)

  recovers :
      (k left attempt : ℕ) (req : Request) (backoff : ℕ) (delays : List ℕ) (r : Result Stream)
      → k ≤ left
      → ((i : ℕ) → attempt ≤ i → i < attempt + k → Fails req i)
      → inner (attempt + k) (some req) ≡ r
      → (k ≡ left) ⊎ IsFinal r
      → let o = open_attempts inner snapshot done t left attempt req backoff delays in
        (o.result ≡ some r) × (o.calls ≡ suc (attempt + k))
  unfolding open_attempts
  recovers zero l a req b d r hk hf hi he =
      let n : a + 0 ≡ a = omega arith in
      let (result, calls) = stops l a req b d r (subst (λ k. inner k (some req) ≡ r) n hi) he in
      (result, calls ∙ ap suc (sym n))
  recovers (suc k) zero a req b d r hk hf hi he = absurd (omega (arith, hk))
  recovers (suc k) (suc l) a req b d r hk hf hi he =
      let (failed, again, waits) = hf a (omega arith) (omega arith) in
      let n : a + suc k ≡ suc a + k = omega arith in
      let he' : (k ≡ l) ⊎ IsFinal r = elim he [ inl e ↦ inl (omega (arith, e)) | inr h ↦ inr h ] in
      let (result, calls) =
        recovers k l (suc a) req _ _ r (omega (arith, hk))
          (λ i low high. hf i (omega (arith, low)) (omega (arith, high)))
          (subst (λ m. inner m (some req) ≡ r) n hi) he' in
      rw (open_attempts, failed, again, waits) (result, calls ∙ ap suc (sym n))

-- With the mode "before_stream" and a `MaxRetries` of `M ≥ 0`, when the attempts numbered `0` to
-- `k - 1` fail by retryable errors and their waits are not cut short, and the answer to attempt
-- `k` is a stream, or an error that is not retryable, or `k` is `M`, then `Open` returns that
-- answer, after `k + 1` calls of the inner transport.
pub open_stream-answer :
    {Request Stream : Type 0} (inner : ℕ → Option Request → Result Stream)
    (snapshot : Request → Result Request) (done : ℕ → Option GoError) (t : RetryTransport)
    (failure : ℕ → GoError) (req replay : Request) (k : ℕ) (r : Result Stream)
    → t.mode ≡ retry_before_stream
    → Int64.lt t.max_retries 0 ≡ false
    → snapshot req ≡ ok replay
    → k ≤ t.max_retries
    → ((i : ℕ)
        → i < k
        → (inner i (some replay) ≡ err (failure i))
          × (retryable t (failure i) ≡ true)
          × (done i ≡ none))
    → inner k (some replay) ≡ r
    → (k ≡ t.max_retries) ⊎ IsFinal inner snapshot done t failure r
    → let o = open_stream inner snapshot done t (some req) in
      (o.result ≡ some r) × (o.calls ≡ suc k)
unfolding open_stream
open_stream-answer inner snapshot done t failure req replay k r hm hn hs hk hf hi he =
    let m : (t.mode == retry_before_stream) ≡ true =
      (string_eq.same_iff t.mode retry_before_stream).1 hm in
    let answer =
      recovers inner snapshot done t failure k t.max_retries 0 replay t.initial_backoff [] r hk
        (λ i low high. hf i (omega (arith, high)))
        (subst (λ j. inner j (some replay) ≡ r) (omega arith) hi) he in
    rw (open_stream, m, hs, hn) (answer.0, answer.1 ∙ ap suc (omega arith))
