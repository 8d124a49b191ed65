-- ===== src/Transport/Retry.antt =====
-- transport/retry.go. The inner transport is a parameter that answers the calls in turn; a call
-- is numbered by the attempt, and nothing of a request is read but its body: `snapshot` stands for
-- `snapshotRequestBody`, and gives the request that is sent at each attempt. `done` is the context's
-- error if it ends the wait after an attempt, `none` when the timer fires first. A nil request is
-- `none`. Times are 64-bit nanosecond counts.
pub mod Calls
pub mod Delays
use llmadapter.Prelude.{
  ℕ, zero, suc, ◌+◌, ◌*◌, ◌%◌, String, Bool, true, false, not, ◌&&◌, ◌||◌, Option, none, some, List,
  [], ◌∷◌, ◌++◌, if◌then◌else◌, ◌==◌, nat_eq, string_eq,
}
use llmadapter.Prelude.Int64
use llmadapter.Unified.Errors.{GoError, ApiError, as_api, Result, ok, err}

abbrev RetryMode : Type 0
RetryMode = String

abbrev retry_never : RetryMode
retry_never = "never"

abbrev retry_before_stream : RetryMode
retry_before_stream = "before_stream"

pub record RetryConfig : Type 0 where
  pub mode : RetryMode
  pub max_retries : ℕ
  pub initial_backoff : ℕ
  pub max_backoff : ℕ
  pub retryable_status : Option (ℕ → Bool)

unfoldable default_retryable_status : ℕ → Bool
default_retryable_status status =
    status == 429 || status == 500 || status == 502 || status == 503 || status == 504

-- The configuration behind `NewRetryTransport`, with its defaults filled in.
pub record RetryTransport : Type 0 where
  pub mode : RetryMode
  pub max_retries : ℕ
  pub initial_backoff : ℕ
  pub max_backoff : ℕ
  pub retryable_status : ℕ → Bool

abbrev nanoseconds_10ms : ℕ
nanoseconds_10ms = 10000000

abbrev nanoseconds_1s : ℕ
nanoseconds_1s = 1000000000

unfoldable new_retry_transport : RetryConfig → RetryTransport
unfolding default_retryable_status
new_retry_transport cfg = record {
  mode = cfg.mode;
  max_retries = cfg.max_retries;
  initial_backoff = if cfg.initial_backoff == 0 then nanoseconds_10ms else cfg.initial_backoff;
  max_backoff = if cfg.max_backoff == 0 then nanoseconds_1s else cfg.max_backoff;
  retryable_status = elim cfg.retryable_status [ none ↦ default_retryable_status | some f ↦ f ];
}

unfoldable pub new_default_retry_transport : RetryTransport
unfolding new_retry_transport
new_default_retry_transport = new_retry_transport (record {
  mode = retry_before_stream;
  max_retries = 2;
  initial_backoff = 100000000;
  max_backoff = 2000000000;
  retryable_status = none;
})

unfoldable retry_delay : GoError → ℕ → ℕ
retry_delay e backoff = elim (as_api e) [
  | none ↦ backoff
  | some a ↦ if Int64.is_pos a.retry_after then a.retry_after else backoff
]

unfoldable pub retryable : RetryTransport → GoError → Bool
retryable t e = elim (as_api e) [ none ↦ true | some a ↦ t.retryable_status a.status_code ]

-- `backoff *= 2`, and its cut at the maximum
unfoldable next_backoff : RetryTransport → ℕ → ℕ
next_backoff t backoff =
    let twice = Int64.add backoff backoff in
    if Int64.lt t.max_backoff twice then t.max_backoff else twice

-- What `Open` returns, `none` for a nil stream with a nil error, how many calls it made of the
-- inner transport, and how long it waited after each that failed.
pub record Opened (Stream : Type 0) : Type 0 where
  pub result : Option (Result Stream)
  pub calls : ℕ
  pub delays : List ℕ

module _ {Request Stream : Type 0} (inner : ℕ → Option Request → Result Stream)
    (snapshot : Request → Result Request) (done : ℕ → Option GoError) (t : RetryTransport) where
  -- The loop of `Open`: `attempt` of the source, with the number of retries that are left.
  unfoldable open_attempts : (left attempt : ℕ) → Request → ℕ → List ℕ → Opened Stream
  unfolding retryable retry_delay next_backoff
  open_attempts zero attempt req backoff delays = record {
    result = some (inner attempt (some req));
    calls = suc attempt;
    delays = delays;
  }
  open_attempts (suc left) attempt req backoff delays = elim (inner attempt (some req)) [
    | ok stream ↦ record { result = some (ok stream); calls = suc attempt; delays = delays }
    | err e ↦ elim (retryable t e) [
      | false ↦ record { result = some (err e); calls = suc attempt; delays = delays }
      | true ↦ elim (done attempt) [
        | some cancelled ↦ record {
          result = some (err cancelled);
          calls = suc attempt;
          delays = delays ++ retry_delay e backoff ∷ [];
        }
        | none ↦
            open_attempts left (suc attempt) req (next_backoff t backoff)
              (delays ++ retry_delay e backoff ∷ [])
      ]
    ]
  ]

  abbrev pass_on : Option Request → Opened Stream
  pass_on req = record { result = some (inner 0 req); calls = 1; delays = [] }

  -- With a negative `MaxRetries` the loop has no turn.
  abbrev start_attempts : Result Request → Opened Stream
  start_attempts (err e) = record { result = some (err e); calls = 0; delays = [] }
  start_attempts (ok req) =
      if Int64.lt t.max_retries 0
      then record { result = none; calls = 0; delays = [] }
      else open_attempts t.max_retries 0 req t.initial_backoff []

  unfoldable pub open_stream : Option Request → Opened Stream
  unfolding open_attempts
  open_stream none = pass_on none
  open_stream (some req) =
      if not (t.mode == retry_before_stream)
      then pass_on (some req)
      else start_attempts (snapshot req)
