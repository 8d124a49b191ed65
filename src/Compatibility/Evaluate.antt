-- ===== src/Compatibility/Evaluate.antt =====
-- compatibility/evaluate.go, with `Approved` and `sortedFeatures` of compatibility/types.go.
use Prim.Native.String.{compare}
use Prim.Native.Nat.{Ordering}
use llmadapter.Prelude.{
  Bool, true, false, not, ◌&&◌, ◌||◌, none, some, List, [], ◌∷◌, ◌++◌, filter, any, is_nil, ◌==◌,
  string_eq, if◌then◌else◌,
}
use llmadapter.Prelude.Assoc.{Assoc, lookup, insert, keys}
use llmadapter.Prelude.StableSort.{stable_sort}
use llmadapter.Compatibility.Types.{
  Candidate, Evaluation, EvaluationStatus, Feature, FeatureEvidence, Profile, RequirementLevel,
  evidence_unsupported, evidence_untested, requirement_optional, requirement_preferred,
  requirement_required, status_approved, status_degraded, status_failed, status_untested,
}

unfoldable pub approved : Evaluation → Bool
approved e = e.status == status_approved

abbrev pub feature_less : Feature → Feature → Bool
feature_less a b = elim (compare a b) [ Ordering.lt ↦ true | _ ↦ false ]

unfoldable pub sorted_features : Assoc Feature RequirementLevel → List Feature
sorted_features requirements = stable_sort feature_less (keys requirements)

-- The map from a feature to the last evidence on it.
unfoldable pub evidence_of :
    Assoc Feature FeatureEvidence → List FeatureEvidence → Assoc Feature FeatureEvidence
evidence_of m [] = m
evidence_of m (item ∷ items) = evidence_of (insert item.feature item m) items

-- `evidence[feature]`, or the item that stands for no evidence
unfoldable pub item_of : Assoc Feature FeatureEvidence → Feature → FeatureEvidence
item_of evidence feature = elim (lookup feature evidence) [
  | none ↦ record {
    feature = feature;
    supported = false;
    evidence = evidence_untested;
    detail = "";
  }
  | some item ↦ item
]

-- `requirements[feature]`, the empty level where the key is missing
unfoldable pub level_of : Assoc Feature RequirementLevel → Feature → RequirementLevel
level_of requirements feature = elim (lookup feature requirements) [
  | none ↦ ""
  | some level ↦ level
]

-- The `switch` on the requirement.
unfoldable pub judge : RequirementLevel → FeatureEvidence → Feature → Evaluation → Evaluation
judge requirement item feature out =
    if requirement == requirement_required
    then (if not item.supported
        then (if item.evidence == evidence_untested
            then record out { untested_required = out.untested_required ++ feature ∷ [] }
            else record out { missing_required = out.missing_required ++ feature ∷ [] })
        else out)
    else if requirement == requirement_preferred
    then (if not item.supported || item.evidence == evidence_untested
        then record out { degraded_preferred = out.degraded_preferred ++ feature ∷ [] }
        else out)
    else if requirement == requirement_optional
    then (if not item.supported && item.evidence == evidence_unsupported
        then record out { unsupported_optional = out.unsupported_optional ++ feature ∷ [] }
        else out)
    else out

unfoldable pub add_result : RequirementLevel → FeatureEvidence → Feature → Evaluation → Evaluation
add_result requirement item feature out = record out {
  features =
      out.features
      ++ (record {
        feature = feature;
        requirement = requirement;
        supported = item.supported;
        evidence = item.evidence;
        detail = item.detail;
      })
        ∷ [];
}

-- The loop over the sorted features.
unfoldable pub evaluate_each :
    Assoc Feature RequirementLevel
    → Assoc Feature FeatureEvidence
    → List Feature
    → Evaluation
    → Evaluation
unfolding item_of level_of judge add_result
evaluate_each requirements evidence [] out = out
evaluate_each requirements evidence (feature ∷ features) out =
    evaluate_each requirements evidence features (
      judge (level_of requirements feature) (item_of evidence feature) feature
        (add_result (level_of requirements feature) (item_of evidence feature) feature out))

unfoldable pub set_status : Evaluation → Evaluation
set_status out = record out {
  status =
      if not (is_nil out.missing_required)
      then status_failed
      else if not (is_nil out.untested_required)
      then status_untested
      else if not (is_nil out.degraded_preferred)
      then status_degraded
      else status_approved;
}

abbrev pub new_evaluation : Candidate → Profile → Evaluation
new_evaluation candidate profile = record {
  candidate = candidate;
  use_case = profile.use_case;
  status = status_approved;
  features = [];
  missing_required = [];
  untested_required = [];
  degraded_preferred = [];
  unsupported_optional = [];
}

unfoldable pub evaluate : Candidate → Profile → Evaluation
unfolding evaluate_each evidence_of set_status sorted_features
evaluate candidate profile = set_status (
    evaluate_each profile.requirements (evidence_of [] candidate.features)
      (sorted_features profile.requirements) (new_evaluation candidate profile))

unfoldable pub evaluate_many : List Candidate → Profile → List Evaluation
unfolding evaluate
evaluate_many [] profile = []
evaluate_many (candidate ∷ candidates) profile =
    evaluate candidate profile ∷ evaluate_many candidates profile

-- `Filter`: the map `allowed` holds the statuses that are named.
unfoldable filter_evaluations : List Evaluation → List EvaluationStatus → List Evaluation
filter_evaluations evaluations statuses =
    filter (λ e. any (λ status. status == e.status) statuses) evaluations
