-- ===== src/Compatibility/Status.antt =====
-- The status of an evaluation from the requirements alone.
use llmadapter.Prelude.{
  eq_apart, ◌≡◌, refl, sym, ◌∙◌, ap, Bool, not, ◌&&◌, ◌||◌, arith, List, [], ◌∷◌, ◌++◌, any, filter,
  filter-append, is_nil-filter, if◌then◌else◌, ◌==◌, string_eq,
}
use llmadapter.Prelude.Assoc.{Assoc, keys}
use llmadapter.Prelude.StableSort.{stable_sort, any-stable_sort}
use mathlib.Core.List.{append_assoc, append-nil}
use llmadapter.Compatibility.Types.{
  Feature, RequirementLevel, requirement_required, requirement_preferred, evidence_untested,
  EvaluationStatus, status_approved, status_degraded, status_failed, status_untested, Profile,
  FeatureEvidence, Candidate, Evaluation,
}
use llmadapter.Compatibility.Evaluate.{
  feature_less, sorted_features, evidence_of, item_of, level_of, judge, add_result, evaluate_each,
  set_status, new_evaluation, evaluate,
}

abbrev is_missing : RequirementLevel → FeatureEvidence → Bool
is_missing level item =
    level == requirement_required && not item.supported && not (item.evidence == evidence_untested)

abbrev is_untested : RequirementLevel → FeatureEvidence → Bool
is_untested level item =
    level == requirement_required && not item.supported && item.evidence == evidence_untested

abbrev is_degraded : RequirementLevel → FeatureEvidence → Bool
is_degraded level item =
    level == requirement_preferred && (not item.supported || item.evidence == evidence_untested)

module _ (requirements : Assoc Feature RequirementLevel)
    (evidence : Assoc Feature FeatureEvidence) where
  abbrev on : (RequirementLevel → FeatureEvidence → Bool) → Feature → Bool
  on test feature = test (level_of requirements feature) (item_of evidence feature)

  -- One of the lists of an evaluation, to which a test on the level and the item decides whether
  -- the feature is appended.
  evaluate_each-filter :
      (list_of : Evaluation → List Feature) (test : RequirementLevel → FeatureEvidence → Bool)
      → ((level : RequirementLevel) (item : FeatureEvidence) (feature : Feature) (out : Evaluation)
          → list_of (judge level item feature (add_result level item feature out))
            ≡ list_of out ++ filter (λ f. test level item) (feature ∷ []))
      → (features : List Feature) (out : Evaluation)
      → list_of (evaluate_each requirements evidence features out)
        ≡ list_of out ++ filter (on test) features
  unfolding evaluate_each
  evaluate_each-filter list_of test h [] out = sym (append-nil (list_of out))
  evaluate_each-filter list_of test h (f ∷ fs) out =
      let level = level_of requirements f in
      let item = item_of evidence f in
      evaluate_each-filter list_of test h fs (judge level item f (add_result level item f out))
      ∙ ap (λ l. l ++ filter (on test) fs) (h level item f out)
      ∙ append_assoc (list_of out) (filter (λ g. test level item) (f ∷ [])) (filter (on test) fs)
      ∙ ap (λ l. list_of out ++ l) (sym (filter-append (on test) (f ∷ []) fs))

  evaluate_each-missing :
      (features : List Feature) (out : Evaluation)
      → (evaluate_each requirements evidence features out).missing_required
        ≡ out.missing_required ++ filter (on is_missing) features
  unfolding judge add_result
  evaluate_each-missing =
      evaluate_each-filter (λ e. e.missing_required) is_missing
        (λ level item feature out. ground (arith, append-nil out.missing_required))

  evaluate_each-untested :
      (features : List Feature) (out : Evaluation)
      → (evaluate_each requirements evidence features out).untested_required
        ≡ out.untested_required ++ filter (on is_untested) features
  unfolding judge add_result
  evaluate_each-untested =
      evaluate_each-filter (λ e. e.untested_required) is_untested
        (λ level item feature out. ground (arith, append-nil out.untested_required))

  evaluate_each-degraded :
      (features : List Feature) (out : Evaluation)
      → (evaluate_each requirements evidence features out).degraded_preferred
        ≡ out.degraded_preferred ++ filter (on is_degraded) features
  unfolding judge add_result
  evaluate_each-degraded =
      evaluate_each-filter (λ e. e.degraded_preferred) is_degraded
        (λ level item feature out. ground (
          arith,
          append-nil out.degraded_preferred,
          eq_apart level requirement_required requirement_preferred refl,
        ))

  -- The worst shortfall among the requirements decides, whatever their order.
  abbrev pub status_of : EvaluationStatus
  status_of =
      if any (on is_missing) (keys requirements)
      then status_failed
      else if any (on is_untested) (keys requirements)
      then status_untested
      else if any (on is_degraded) (keys requirements)
      then status_degraded
      else status_approved

-- The status is `failed` if a required feature is known to be unsupported, else `untested` if one
-- has no evidence, else `degraded` if a preferred feature is unsupported or untested, and else
-- `approved`. The features are those of the requirements' map, in no particular order, and the
-- evidence on a feature is the last of the candidate's.
pub evaluate-status :
    (candidate : Candidate) (profile : Profile)
    → (evaluate candidate profile).status
      ≡ status_of profile.requirements (evidence_of [] candidate.features)
unfolding evaluate set_status sorted_features
evaluate-status candidate profile =
    let requirements = profile.requirements in
    let evidence = evidence_of [] candidate.features in
    let sorted = stable_sort feature_less (keys requirements) in
    let new = new_evaluation candidate profile in
    rw
      (
        evaluate_each-missing requirements evidence sorted new,
        evaluate_each-untested requirements evidence sorted new,
        evaluate_each-degraded requirements evidence sorted new,
        is_nil-filter (on requirements evidence is_missing) sorted,
        is_nil-filter (on requirements evidence is_untested) sorted,
        is_nil-filter (on requirements evidence is_degraded) sorted,
        any-stable_sort feature_less (on requirements evidence is_missing) (keys requirements),
        any-stable_sort feature_less (on requirements evidence is_untested) (keys requirements),
        any-stable_sort feature_less (on requirements evidence is_degraded) (keys requirements),
      )
      (ground arith)
