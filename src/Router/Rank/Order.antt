-- ===== src/Router/Rank/Order.antt =====
-- The comparison of routes against its meaning: the higher weight first, then (where the request
-- names no API) the preferred source API, then the higher priority.
use llmadapter.Prelude.{
  ℕ, ◌≤◌, ◌<◌, ◌≡◌, ◌↔◌, ◌⊎◌, Bool, true, false, not, ◌&&◌, arith, ltb, ◌==◌, nat_eq, string_eq,
  if◌then◌else◌,
}
use llmadapter.Prelude.Int64
use llmadapter.Router.Types.{AdaptRequest, StaticRoute}
use llmadapter.Router.Rank.{source_api_rank, ranks_above}

-- Weight and priority lie in [-2 ^ 62, 2 ^ 62).
pub record IsModerate (r : StaticRoute) : Type 0 where
  pub weight : Int64.IsModerate r.weight
  pub priority : Int64.IsModerate r.endpoint.priority

-- The place of the source API in the comparison: it counts only if the request names none.
abbrev api_place : AdaptRequest → StaticRoute → ℕ
api_place req r = if req.source_api == "" then source_api_rank r.source_api else 0

abbrev weight_of : StaticRoute → ℕ
weight_of r = Int64.order r.weight

abbrev priority_of : StaticRoute → ℕ
priority_of r = Int64.order r.endpoint.priority

-- `a` comes before `b`, whatever their order in the configuration.
abbrev pub Beats : AdaptRequest → StaticRoute → StaticRoute → Type 0
Beats req a b =
    (weight_of b < weight_of a)
    ⊎ ((weight_of a ≡ weight_of b)
        × ((api_place req a < api_place req b)
            ⊎ ((api_place req a ≡ api_place req b) × (priority_of b < priority_of a))))

source_api_rank-le : (r : StaticRoute) → source_api_rank r.source_api ≤ 10
unfolding source_api_rank
source_api_rank-le r = ground arith

is_pos-sub_small : (a b : ℕ) → a ≤ 10 → b ≤ 10 → Int64.is_pos (Int64.sub a b) ≡ ltb b a
is_pos-sub_small a b ha hb = ground arith

order-inj :
    (a b : ℕ) → Int64.IsModerate a → Int64.IsModerate b → Int64.order a ≡ Int64.order b → a ≡ b
order-inj a b ha hb h = omega arith

-- The three levels of the comparison over plain numbers.
abbrev Lex : ℕ → ℕ → ℕ → ℕ → ℕ → ℕ → Type 0
Lex oa ob pa pb qa qb = (ob < oa) ⊎ ((oa ≡ ob) × ((pa < pb) ⊎ ((pa ≡ pb) × (qb < qa))))

abbrev lex : ℕ → ℕ → ℕ → ℕ → ℕ → ℕ → Bool
lex oa ob pa pb qa qb =
    if not (oa == ob) then ltb ob oa else if not (pa == pb) then ltb pa pb else ltb qb qa

lex_iff : (oa ob pa pb qa qb : ℕ) → (lex oa ob pa pb qa qb ≡ true) ↔ Lex oa ob pa pb qa qb
lex_iff oa ob pa pb qa qb = ground arith

beq-order :
    (a b : ℕ)
    → Int64.IsModerate a
    → Int64.IsModerate b
    → (a == b) ≡ (Int64.order a == Int64.order b)
beq-order a b ha hb = ground (arith, order-inj a b)

api_test :
    (req : AdaptRequest) (a b : StaticRoute)
    → (req.source_api == "" && not (source_api_rank a.source_api == source_api_rank b.source_api))
      ≡ not (api_place req a == api_place req b)
api_test req a b = ground arith

ranks_above-lex :
    (req : AdaptRequest) (a b : StaticRoute)
    → IsModerate a
    → IsModerate b
    → ranks_above req a b
      ≡ lex
          (weight_of a)
          (weight_of b)
          (api_place req a)
          (api_place req b)
          (priority_of a)
          (priority_of b)
unfolding ranks_above
ranks_above-lex req a b ha hb = ground (
  arith,
  beq-order a.weight b.weight ha.weight hb.weight,
  api_test req a b,
  Int64.is_pos-sub a.weight b.weight ha.weight hb.weight,
  Int64.is_pos-sub a.endpoint.priority b.endpoint.priority ha.priority hb.priority,
  is_pos-sub_small (source_api_rank b.source_api) (source_api_rank a.source_api)
      (source_api_rank-le b) (source_api_rank-le a),
)

-- One route ranks above another exactly if it beats it. Weights and priorities lie in
-- [-2 ^ 62, 2 ^ 62), so that the differences which the code computes do not wrap around.
pub ranks_above_iff :
    (req : AdaptRequest) (a b : StaticRoute)
    → IsModerate a
    → IsModerate b
    → (ranks_above req a b ≡ true) ↔ Beats req a b
ranks_above_iff req a b ha hb = rw (ranks_above-lex req a b ha hb) (
    lex_iff (weight_of a) (weight_of b) (api_place req a) (api_place req b) (priority_of a)
      (priority_of b))

lex_asym : (oa ob pa pb qa qb : ℕ) → lex oa ob pa pb qa qb ≡ true → lex ob oa pb pa qb qa ≡ false
lex_asym oa ob pa pb qa qb h = ground arith

lex_trans :
    (oa ob oc pa pb pc qa qb qc : ℕ)
    → lex oa ob pa pb qa qb ≡ false
    → lex ob oc pb pc qb qc ≡ false
    → lex oa oc pa pc qa qc ≡ false
lex_trans oa ob oc pa pb pc qa qb qc h k = ground arith

pub ranks_above_asym :
    (req : AdaptRequest) (a b : StaticRoute)
    → IsModerate a
    → IsModerate b
    → ranks_above req a b ≡ true
    → ranks_above req b a ≡ false
ranks_above_asym req a b ha hb h = rw (ranks_above-lex req b a hb ha) (
    lex_asym (weight_of a) (weight_of b) (api_place req a) (api_place req b) (priority_of a)
      (priority_of b) (rw (ranks_above-lex req a b ha hb) at h))

pub ranks_above_trans :
    (req : AdaptRequest) (a b c : StaticRoute)
    → IsModerate a
    → IsModerate b
    → IsModerate c
    → ranks_above req a b ≡ false
    → ranks_above req b c ≡ false
    → ranks_above req a c ≡ false
ranks_above_trans req a b c ha hb hc h k = rw (ranks_above-lex req a c ha hc) (
    lex_trans (weight_of a) (weight_of b) (weight_of c) (api_place req a) (api_place req b)
      (api_place req c) (priority_of a) (priority_of b) (priority_of c)
      (rw (ranks_above-lex req a b ha hb) at h) (rw (ranks_above-lex req b c hb hc) at k))
