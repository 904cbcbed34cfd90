-- ===== src/Runtime/Messages/Status.antt =====
-- The fields of a task result by its status.
use decentralized_agentic_re.Prelude.{String, ◌≡◌, refl, ◌⊎◌, inl, inr, Option, none, some}
use decentralized_agentic_re.Prelude.Dict.{Uuid}
use decentralized_agentic_re.Prelude.Exec.{ok, err, value_error}
use decentralized_agentic_re.Runtime.Messages.{
  A2aMessage, TaskError, TaskStatus, TaskResult, ErrorCategory, completed, failed, rejected,
  validation, unsupported_capability, handler_error, duplicate, internal, validate_status_fields,
}

-- Which categories go with which status.
abbrev pub Explains : TaskStatus → ErrorCategory → Type 0
Explains completed c = ⊥
Explains failed c = (c ≡ handler_error) ⊎ (c ≡ internal)
Explains rejected c = (c ≡ validation) ⊎ (c ≡ unsupported_capability) ⊎ (c ≡ duplicate)

-- A completed task has an output and no error; any other has an error of its kind and no output.
pub data Shape (status : TaskStatus) : Option A2aMessage → Option TaskError → Type 0 where
  done : (m : A2aMessage) → status ≡ completed → Shape status (some m) none
  undone : (e : TaskError) → Explains status e.category → Shape status none (some e)

explains : (s : TaskStatus) (e : TaskError) → Shape s none (some e) → Explains s e.category
explains s e (undone _ h) = h

is_done : (s : TaskStatus) (m : A2aMessage) → Shape s (some m) none → s ≡ completed
is_done s m (done _ h) = h

abbrev pub built : Uuid → TaskStatus → String → Option A2aMessage → Option TaskError → TaskResult
built task status performer output error = record {
  task_id = task;
  status = status;
  performer_agent_id = performer;
  output = output;
  error = error;
}

-- The validator accepts the fields as they are, or raises `ValueError`.
abbrev pub Verdict : Uuid → TaskStatus → String → Option A2aMessage → Option TaskError → Type 0
Verdict task s performer output error =
    (Shape s output error
      × (validate_status_fields (built task s performer output error)
          ≡ ok (built task s performer output error)))
    ⊎ ((Shape s output error → ⊥)
        × (validate_status_fields (built task s performer output error) ≡ err value_error))

error-Verdict :
    (task : Uuid) (s : TaskStatus) (performer : String) (c : ErrorCategory) (message : String)
    → Verdict task s performer none (some (record { category = c; message = message }))
unfolding validate_status_fields
error-Verdict task completed performer c message = inr (λ h. explains completed _ h, refl)
error-Verdict task failed performer validation message =
    inr ((λ h. elim (explains failed _ h) [ inl e ↦ cc | inr e ↦ cc ]), refl)
error-Verdict task failed performer unsupported_capability message =
    inr ((λ h. elim (explains failed _ h) [ inl e ↦ cc | inr e ↦ cc ]), refl)
error-Verdict task failed performer handler_error message = inl (undone _ (inl refl), refl)
error-Verdict task failed performer duplicate message =
    inr ((λ h. elim (explains failed _ h) [ inl e ↦ cc | inr e ↦ cc ]), refl)
error-Verdict task failed performer internal message = inl (undone _ (inr refl), refl)
error-Verdict task rejected performer validation message = inl (undone _ (inl refl), refl)
error-Verdict task rejected performer unsupported_capability message =
    inl (undone _ (inr (inl refl)), refl)
error-Verdict task rejected performer handler_error message = inr (
  (λ h. elim (explains rejected _ h) [ inl e ↦ cc | inr f ↦ elim f [ inl e ↦ cc | inr e ↦ cc ] ]),
  refl,
)
error-Verdict task rejected performer duplicate message = inl (undone _ (inr (inr refl)), refl)
error-Verdict task rejected performer internal message = inr (
  (λ h. elim (explains rejected _ h) [ inl e ↦ cc | inr f ↦ elim f [ inl e ↦ cc | inr e ↦ cc ] ]),
  refl,
)

-- A task result, whatever its fields, is either accepted as it is, and then is completed with an output
-- and no error, or failed or rejected with no output and an error of one of the categories of that
-- status; or it has no such shape, and building it raises `ValueError`.
pub validate_status_fields-Shape :
    (task : Uuid) (s : TaskStatus) (performer : String) (output : Option A2aMessage)
    (error : Option TaskError)
    → Verdict task s performer output error
unfolding validate_status_fields
validate_status_fields-Shape task s performer none (some e) =
    error-Verdict task s performer e.category e.message
validate_status_fields-Shape task completed performer none none = inr (λ h. elim h [ ], refl)
validate_status_fields-Shape task completed performer (some m) (some e) =
    inr (λ h. elim h [ ], refl)
validate_status_fields-Shape task completed performer (some m) none = inl (done m refl, refl)
validate_status_fields-Shape task failed performer none none = inr (λ h. elim h [ ], refl)
validate_status_fields-Shape task failed performer (some m) (some e) = inr (λ h. elim h [ ], refl)
validate_status_fields-Shape task failed performer (some m) none =
    inr (λ h. cc (is_done failed m h), refl)
validate_status_fields-Shape task rejected performer none none = inr (λ h. elim h [ ], refl)
validate_status_fields-Shape task rejected performer (some m) (some e) = inr (λ h. elim h [ ], refl)
validate_status_fields-Shape task rejected performer (some m) none =
    inr (λ h. cc (is_done rejected m h), refl)
