-- ===== src/Unified/Usage/Totals.antt =====
-- The accounts of a response and of the event that it was made from.
use llmadapter.Prelude.{ℕ, ◌<◌, ◌≡◌, refl, [], ◌∷◌, arith, nat_eq, string_eq}
use llmadapter.Prelude.Int64
use llmadapter.Unified.Usage.{
  TokenKind, TokenItems, count, count_from, tokens_non_zero, input_total, output_total, total,
  usage, UsageEvent, total_tokens,
}

count_from-tokens_non_zero :
    (items : TokenItems) (acc : ℕ) (kind : TokenKind)
    → acc < Int64.modulus
    → count_from acc (tokens_non_zero items) kind ≡ count_from acc items kind
unfolding count_from tokens_non_zero
count_from-tokens_non_zero [] acc kind h = refl
count_from-tokens_non_zero (item ∷ items) acc kind h = ground (
  arith,
  count_from-tokens_non_zero items acc kind h,
  count_from-tokens_non_zero items (Int64.add acc item.count) kind (omega arith),
)

-- The usage of a response counts the same tokens of each kind, and the same in total, as the event
-- that brought it: only items with a count of zero are dropped.
usage-counts :
    (ev : UsageEvent) (kind : TokenKind)
    → (count (usage ev).tokens kind ≡ count ev.tokens kind)
      × (total_tokens (usage ev) ≡ total ev.tokens)
unfolding usage count total input_total output_total
usage-counts ev kind =
    let same = λ (k : TokenKind). count_from-tokens_non_zero ev.tokens 0 k (omega arith) in
    (same kind, simp same)
