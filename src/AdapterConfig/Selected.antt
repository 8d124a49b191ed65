-- ===== src/AdapterConfig/Selected.antt =====
-- What `SelectModelsForUseCase` and `SelectModelForUseCase` return.
use mathlib.Core.List.{Mem, mem-cons_of_mem, mem-cons_self}
use llmadapter.Prelude.{
  map, All-map, String, ◌≡◌, ◌≢◌, refl, subst, Bool, true, false, Option, none, some, List, [], ◌∷◌,
  arith, All, All-append, is_nil, ◌⊎◌, inl, inr, string_eq, if◌then◌else◌,
}
use llmadapter.Unified.Errors.{Result, ok, err}
use llmadapter.Compatibility.Types.{Profile}
use llmadapter.Compatibility.Profiles.{builtin_profile}
use llmadapter.AdapterConfig.Candidates.{ModelResolutionCandidate}
use llmadapter.AdapterConfig.Evidence.{
  RowEvidence, SelectionOptions, RuntimeViewCandidate, Selection,
}
use llmadapter.AdapterConfig.Selection.{
  index_out_of_range, first_selection, status_allowed, reject_reason, Choice, selected, rejected,
  Chosen, row_matches, match_row, selection_of, choose, note_choice, choose_each, use_case_of,
  chosen_or_error, select_from, select_with, select_models, select_model,
}

if-eq-some :
    {A : Type 0} {x y : A} {later : Option A} (b : Bool)
    → (if b then some x else later) ≡ some y
    → ((b ≡ true) × (x ≡ y)) ⊎ (later ≡ some y)
if-eq-some true h = inl (refl, cc)
if-eq-some false h = inr h

module _ (qualified_rest : String → Option String) where
  -- The selection is of one of the candidates, and rests on a row of the evidence that matches
  -- it, whose status the options allow; it has the row's status.
  pub record IsSelected (opts : SelectionOptions) (known : List ModelResolutionCandidate)
      (s : Selection) : Type 0 where
    is_candidate : Mem s.resolution known
    is_row : Mem s.evidence opts.evidence.rows
    matches : row_matches qualified_rest s.evidence s.resolution ≡ true
    allowed : status_allowed s.evidence.status opts ≡ true
    status : s.evaluation.status ≡ s.evidence.status

  match_row-matches :
      (rows : List RowEvidence) (r : ModelResolutionCandidate) (row : RowEvidence)
      → match_row qualified_rest rows r ≡ some row
      → Mem row rows × (row_matches qualified_rest row r ≡ true)
  unfolding match_row
  match_row-matches [] r row h = cc
  match_row-matches (other ∷ rows) r row h =
      elim (if-eq-some (row_matches qualified_rest other r) h) [
        | inl (e, same) ↦
            subst (λ t. Mem t (other ∷ rows) × (row_matches qualified_rest t r ≡ true)) same
              (mem-cons_self, e)
        | inr later ↦
            let (among, e) = match_row-matches rows r row later in (mem-cons_of_mem other among, e)
      ]

  abbrev IsSelectedChoice : SelectionOptions → List ModelResolutionCandidate → Choice → Type 0
  IsSelectedChoice opts known (selected s) = IsSelected opts known s
  IsSelectedChoice opts known (rejected reason) = Unit

  IsSelectedChoice-status :
      (opts : SelectionOptions) (known : List ModelResolutionCandidate) (s : Selection)
      (reason : String) (b : Bool)
      → status_allowed s.evidence.status opts ≡ b
      → (b ≡ true → IsSelected opts known s)
      → IsSelectedChoice opts known (elim b [ true ↦ selected s | false ↦ rejected reason ])
  IsSelectedChoice-status opts known s reason true e h = h refl
  IsSelectedChoice-status opts known s reason false e h = tt

  IsSelectedChoice-row :
      (opts : SelectionOptions) (known : List ModelResolutionCandidate) (profile : Profile)
      (c : RuntimeViewCandidate) (o : Option RowEvidence)
      → Mem c.resolution known
      → match_row qualified_rest opts.evidence.rows c.resolution ≡ o
      → IsSelectedChoice opts known (elim o [
        | none ↦ rejected (reject_reason c.resolution "no_live_evidence")
        | some row ↦ elim (status_allowed row.status opts) [
          | true ↦ selected (selection_of qualified_rest c row profile)
          | false ↦ rejected (reject_reason c.resolution row.status)
        ]
      ])
  IsSelectedChoice-row opts known profile c none m e = tt
  IsSelectedChoice-row opts known profile c (some row) m e =
      IsSelectedChoice-status opts known (selection_of qualified_rest c row profile) _
        (status_allowed row.status opts) refl
        (λ a. record {
          is_candidate = m;
          is_row = (match_row-matches opts.evidence.rows c.resolution row e).0;
          matches = (match_row-matches opts.evidence.rows c.resolution row e).1;
          allowed = a;
          status = refl;
        })

  choose-IsSelectedChoice :
      (opts : SelectionOptions) (known : List ModelResolutionCandidate) (profile : Profile)
      (c : RuntimeViewCandidate)
      → Mem c.resolution known
      → IsSelectedChoice opts known (choose qualified_rest opts profile c)
  unfolding choose
  choose-IsSelectedChoice opts known profile c m =
      IsSelectedChoice-row opts known profile c
        (match_row qualified_rest opts.evidence.rows c.resolution) m refl

  All-IsSelected_choice :
      (opts : SelectionOptions) (known : List ModelResolutionCandidate) (acc : Chosen)
      (choice : Choice)
      → IsSelectedChoice opts known choice
      → All (IsSelected opts known) acc.out
      → All (IsSelected opts known) (note_choice qualified_rest acc choice).out
  All-IsSelected_choice opts known acc (selected s) k h =
      All-append (IsSelected opts known) acc.out (s ∷ []) h (k, tt)
  All-IsSelected_choice opts known acc (rejected reason) k h = h

  choose_each-All-IsSelected :
      (opts : SelectionOptions) (known : List ModelResolutionCandidate) (profile : Profile)
      (acc : Chosen) (cs : List RuntimeViewCandidate)
      → All (λ c. Mem c.resolution known) cs
      → All (IsSelected opts known) acc.out
      → All (IsSelected opts known) (choose_each qualified_rest opts profile acc cs).out
  unfolding choose_each
  choose_each-All-IsSelected opts known profile acc [] m h = h
  choose_each-All-IsSelected opts known profile acc (c ∷ cs) m h =
      choose_each-All-IsSelected opts known profile
        (note_choice qualified_rest acc (choose qualified_rest opts profile c)) cs m.1
        (All-IsSelected_choice opts known acc (choose qualified_rest opts profile c)
          (choose-IsSelectedChoice opts known profile c m.0) h)

  chosen_or_error-ok :
      (model use_case : String) (chosen : Chosen) (out : List Selection)
      → chosen_or_error qualified_rest model use_case chosen ≡ ok out
      → (is_nil out ≡ false) × (chosen.out ≡ out)
  unfolding chosen_or_error
  chosen_or_error-ok model use_case chosen out h = ground (arith, h)

  -- What the candidates that are given are of, none where they are an error.
  abbrev pub known_of : Result (List RuntimeViewCandidate) → List ModelResolutionCandidate
  known_of (err e) = []
  known_of (ok cs) = map RuntimeViewCandidate.resolution cs

  known-All : (cs : List RuntimeViewCandidate) → All (λ c. Mem c.resolution (known_of (ok cs))) cs
  known-All [] = tt
  known-All (c ∷ cs) =
      (mem-cons_self, All-map (λ d m. mem-cons_of_mem c.resolution m) cs (known-All cs))

  select_from-All-IsSelected :
      (model : String) (opts : SelectionOptions) (profile : Profile)
      (cs : Result (List RuntimeViewCandidate)) (out : List Selection)
      → select_from qualified_rest model opts profile cs ≡ ok out
      → (is_nil out ≡ false) × All (IsSelected opts (known_of cs)) out
  unfolding select_from
  select_from-All-IsSelected model opts profile (err e) out h = cc
  select_from-All-IsSelected model opts profile (ok cs) out h =
      let start : Chosen = record { out = []; rejected = [] } in
      let (some_out, same) =
        chosen_or_error-ok model (use_case_of qualified_rest opts)
          (choose_each qualified_rest opts profile start cs) out h in
      (
        some_out,
        subst (All (IsSelected opts (known_of (ok cs)))) same
            (choose_each-All-IsSelected opts (known_of (ok cs)) profile start cs (known-All cs) tt),
      )

  select_with-select_from :
      (model : String) (opts : SelectionOptions) (profile : Profile)
      (cs : Result (List RuntimeViewCandidate)) (out : List Selection)
      → select_with qualified_rest model opts cs (some profile) ≡ ok out
      → select_from qualified_rest model opts profile cs ≡ ok out
  unfolding select_with
  select_with-select_from model opts profile cs out h = ground (arith, h)

  select_with-none :
      (model : String) (opts : SelectionOptions) (cs : Result (List RuntimeViewCandidate))
      (out : List Selection)
      → select_with qualified_rest model opts cs none ≢ ok out
  unfolding select_with
  select_with-none model opts cs out h = cc

  select_with-All-IsSelected :
      (model : String) (opts : SelectionOptions) (cs : Result (List RuntimeViewCandidate))
      (profile : Option Profile) (out : List Selection)
      → select_with qualified_rest model opts cs profile ≡ ok out
      → (is_nil out ≡ false) × All (IsSelected opts (known_of cs)) out
  select_with-All-IsSelected model opts cs (some profile) out h =
      select_from-All-IsSelected model opts profile cs out
        (select_with-select_from model opts profile cs out h)
  select_with-All-IsSelected model opts cs none out h =
      absurd (select_with-none model opts cs out h)

  -- Every selection that `SelectModelsForUseCase` returns is of one of the resolved candidates, and
  -- rests on one of the rows of the evidence, which matches that candidate and has a status which
  -- the options allow; it carries that status. It returns at least one selection if it returns no
  -- error.
  pub select_models-All-IsSelected :
      (model : String) (opts : SelectionOptions) (cs : Result (List RuntimeViewCandidate))
      (out : List Selection)
      → select_models qualified_rest model opts cs ≡ ok out
      → (is_nil out ≡ false) × All (IsSelected opts (known_of cs)) out
  unfolding select_models
  select_models-All-IsSelected model opts cs out h =
      select_with-All-IsSelected model opts cs (builtin_profile (use_case_of qualified_rest opts))
        out h

  first_selection-ok :
      (r : Result (List Selection))
      → first_selection qualified_rest r ≡ index_out_of_range
      → r ≡ ok []
  first_selection-ok (ok []) h = refl
  first_selection-ok (ok (s ∷ more)) h = cc
  first_selection-ok (err e) h = cc

  -- `SelectModelForUseCase` never reads the first of no selections.
  select_model-ne-index_out_of_range :
      (model : String) (opts : SelectionOptions) (cs : Result (List RuntimeViewCandidate))
      → select_model qualified_rest model opts cs ≢ index_out_of_range
  unfolding select_model
  select_model-ne-index_out_of_range model opts cs h =
      let nothing = first_selection-ok (select_models qualified_rest model opts cs) h in
      let (not_nil, all) = select_models-All-IsSelected model opts cs [] nothing in
      absurd (ground (arith, not_nil))
