-- ===== src/Unified/Usage.antt =====
-- unified/usage.go: token and cost accounting. Counts are Go integers, amounts IEEE 754 binary64
-- values held as their bit patterns. The arithmetic on them is a parameter, `FloatOps`; the tests
-- against zero read the bits.
pub mod Totals
use llmadapter.Prelude.{
  ℕ, String, Bool, not, ◌&&◌, ◌||◌, List, [], ◌∷◌, filter, ltb, leb, ◌==◌, nat_eq, string_eq,
  if◌then◌else◌,
}
use llmadapter.Prelude.Int64
use llmadapter.Unified.Content.{RawMessage}

abbrev pub Float64 : Type 0
Float64 = ℕ

-- `x == 0`: both zeros.
abbrev pub float_is_zero : Float64 → Bool
float_is_zero x = x == 0 || x == Int64.half

-- `x > 0`: from the least positive number to infinity, no NaN.
abbrev pub float_is_pos : Float64 → Bool
float_is_pos x = ltb 0 x && leb x 0x7FF0_0000_0000_0000

pub record FloatOps : Type 0 where
  pub add : Float64 → Float64 → Float64
  pub mul : Float64 → Float64 → Float64
  pub div : Float64 → Float64 → Float64
  pub of_int : ℕ → Float64

abbrev TokenKind : Type 0
TokenKind = String

abbrev pub token_kind_input_new : TokenKind
token_kind_input_new = "input.new"

abbrev pub token_kind_input_cache_read : TokenKind
token_kind_input_cache_read = "input.cache_read"

abbrev pub token_kind_input_cache_write : TokenKind
token_kind_input_cache_write = "input.cache_write"

abbrev pub token_kind_output : TokenKind
token_kind_output = "output"

abbrev pub token_kind_output_reasoning : TokenKind
token_kind_output_reasoning = "output.reasoning"

pub record TokenItem : Type 0 where
  pub kind : TokenKind
  pub count : ℕ

abbrev pub TokenItems : Type 0
TokenItems = List TokenItem

-- the loop of `Count`, from the total so far
count_from : ℕ → TokenItems → TokenKind → ℕ
count_from total [] kind = total
count_from total (item ∷ items) kind =
    count_from (if item.kind == kind then Int64.add total item.count else total) items kind

unfoldable pub count : TokenItems → TokenKind → ℕ
unfolding count_from
count items kind = count_from 0 items kind

unfoldable pub tokens_non_zero : TokenItems → TokenItems
tokens_non_zero items = filter (λ item. not (item.count == 0)) items

unfoldable pub input_total : TokenItems → ℕ
input_total items =
    Int64.add
      (Int64.add (count items token_kind_input_new) (count items token_kind_input_cache_read))
      (count items token_kind_input_cache_write)

unfoldable pub output_total : TokenItems → ℕ
output_total items =
    Int64.add (count items token_kind_output) (count items token_kind_output_reasoning)

unfoldable pub total : TokenItems → ℕ
unfolding input_total output_total
total items = Int64.add (input_total items) (output_total items)

abbrev pub CostKind : Type 0
CostKind = String

abbrev pub cost_kind_input : CostKind
cost_kind_input = "input"

abbrev pub cost_kind_input_cache_read : CostKind
cost_kind_input_cache_read = "input.cache_read"

abbrev pub cost_kind_input_cache_write : CostKind
cost_kind_input_cache_write = "input.cache_write"

abbrev pub cost_kind_output : CostKind
cost_kind_output = "output"

abbrev pub cost_kind_reasoning : CostKind
cost_kind_reasoning = "reasoning"

pub record CostItem : Type 0 where
  pub kind : CostKind
  pub amount : Float64

abbrev pub CostItems : Type 0
CostItems = List CostItem

unfoldable pub costs_non_zero : CostItems → CostItems
costs_non_zero items = filter (λ item. not (float_is_zero item.amount)) items

module _ (ops : FloatOps) where
  pub costs_total_from : Float64 → CostItems → Float64
  costs_total_from acc [] = acc
  costs_total_from acc (item ∷ items) = costs_total_from (ops.add acc item.amount) items

  unfoldable costs_total : CostItems → Float64
  unfolding costs_total_from
  costs_total items = costs_total_from 0 items

  pub by_kind_from : Float64 → CostItems → CostKind → Float64
  by_kind_from acc [] kind = acc
  by_kind_from acc (item ∷ items) kind =
      by_kind_from (if item.kind == kind then ops.add acc item.amount else acc) items kind

  unfoldable by_kind : CostItems → CostKind → Float64
  unfolding by_kind_from
  by_kind items kind = by_kind_from 0 items kind

pub record Usage : Type 0 where
  pub tokens : TokenItems
  pub costs : CostItems
  pub provider_raw : RawMessage

pub record UsageEvent : Type 0 where
  pub tokens : TokenItems
  pub costs : CostItems
  pub provider_raw : RawMessage

unfoldable new_usage_event : TokenItems → CostItems → UsageEvent
unfolding tokens_non_zero costs_non_zero
new_usage_event tokens costs = record {
  tokens = tokens_non_zero tokens;
  costs = costs_non_zero costs;
  provider_raw = "";
}

unfoldable pub usage : UsageEvent → Usage
unfolding tokens_non_zero costs_non_zero
usage ev = record {
  tokens = tokens_non_zero ev.tokens;
  costs = costs_non_zero ev.costs;
  provider_raw = ev.provider_raw;
}

unfoldable pub has_tokens : Usage → Bool
unfolding total
has_tokens u = not (total u.tokens == 0)

-- The methods of `Usage` that name one kind or one total.
abbrev pub input_tokens : Usage → ℕ
input_tokens u = input_total u.tokens

abbrev pub input_new_tokens : Usage → ℕ
input_new_tokens u = count u.tokens token_kind_input_new

abbrev pub output_tokens : Usage → ℕ
output_tokens u = output_total u.tokens

abbrev pub reasoning_tokens : Usage → ℕ
reasoning_tokens u = count u.tokens token_kind_output_reasoning

abbrev pub cache_read_tokens : Usage → ℕ
cache_read_tokens u = count u.tokens token_kind_input_cache_read

abbrev pub cache_write_tokens : Usage → ℕ
cache_write_tokens u = count u.tokens token_kind_input_cache_write

abbrev pub total_tokens : Usage → ℕ
total_tokens u = total u.tokens
