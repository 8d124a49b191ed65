-- ===== src/AdapterConfig/Offline.antt =====
-- What `CompatibleCandidates` returns for agentic coding.
use llmadapter.Prelude.{
  ◌≡◌, refl, sym, ap, subst, Bool, true, false, List, [], ◌∷◌, map, filter, ◌==◌, string_eq, ◌||◌,
  ◌&&◌, if◌then◌else◌,
}
use llmadapter.Unified.Errors.{ok}
use llmadapter.Compatibility.Types.{
  use_case_agentic_coding, status_untested, status_failed, status_approved, status_degraded,
}
use llmadapter.Compatibility.Evaluate.{evaluate, evaluate_many}
use llmadapter.Compatibility.Profiles.{agentic_coding_profile, builtin_profile}
use llmadapter.Compatibility.Builtin.{evaluate-from_capabilities}
use llmadapter.AdapterConfig.Candidates.{
  ModelResolutionCandidate, compatibility_candidate, compatibility_candidates,
  evaluate_compatibility_candidates, is_compatible, compatible_candidates,
}

short_of :
    (b v : Bool)
    → let status = if v then status_untested else status_failed in
      (status == status_approved || (b && status == status_degraded)) ≡ false
short_of false false = refl
short_of false true = refl
short_of true false = refl
short_of true true = refl

verdict :
    (b : Bool) (r : ModelResolutionCandidate)
    → is_compatible b (evaluate (compatibility_candidate r) agentic_coding_profile) ≡ false
unfolding compatibility_candidate
verdict b r =
    let caps = r.capabilities in
    subst (λ status. (status == status_approved || (b && status == status_degraded)) ≡ false)
      (sym (evaluate-from_capabilities (compatibility_candidate r)).0)
      (short_of b (caps.streaming && caps.tools && caps.prompt_caching))

filter-evaluate_many :
    (b : Bool) (rs : List ModelResolutionCandidate)
    → filter
        (is_compatible b)
        (evaluate_many (map compatibility_candidate rs) agentic_coding_profile)
      ≡ []
unfolding evaluate_many
filter-evaluate_many b [] = refl
filter-evaluate_many b (r ∷ rs) = rw (verdict b r) (filter-evaluate_many b rs)

-- Whatever candidates a model resolves to, and whether degraded ones are wanted or not,
-- `CompatibleCandidates` finds none for agentic coding.
compatible_candidates-agentic_coding :
    (rs : List ModelResolutionCandidate) (include_degraded : Bool)
    → compatible_candidates (ok rs) use_case_agentic_coding include_degraded ≡ ok []
unfolding compatible_candidates evaluate_compatibility_candidates compatibility_candidates
    builtin_profile
compatible_candidates-agentic_coding rs b =
    ap (λ es. ok (map (λ e. e.candidate) es)) (filter-evaluate_many b rs)
