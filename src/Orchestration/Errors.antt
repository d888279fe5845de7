-- ===== src/Orchestration/Errors.antt =====
-- packages/orchestration/src/types.ts, errors.ts: the stable error codes, and results that carry one.
use mathlib.Core.Option.{Option, none, some}
use mathlib.Core.Bool.{Bool, true, false}
use mathlib.Core.Path.{◌≡◌, refl}

pub data ErrorCode : Type 0 where
  invalid_orchestration_input event_unauthorized event_id_conflict event_subject_mismatch :
      ErrorCode
  configuration_not_found configuration_conflict configuration_unauthorized : ErrorCode
  event_order_conflict revision_association_conflict job_not_found_or_denied : ErrorCode
  worker_unauthorized job_lease_conflict job_cancelled job_superseded : ErrorCode
  job_dependency_failed job_execution_failed reconciliation_failed : ErrorCode
  outbox_lease_conflict outbox_delivery_failed promotion_ineligible : ErrorCode
  orchestration_storage_error : ErrorCode

pub data Result {ℓ} (A : Type ℓ) : Type ℓ where
  ok : A → Result A
  err : ErrorCode → Result A

-- if (!test) throw new OrchestrationError(code)
abbrev pub require : Bool → ErrorCode → Result (Unit {0})
require test code = elim test [ true ↦ ok tt | false ↦ err code ]

abbrev pub from_option {ℓ} : {A : Type ℓ} → ErrorCode → Option A → Result A
from_option code none = err code
from_option code (some value) = ok value

-- A throw ends the function: what follows is not run.
infixl 5 ◌>>=◌ ◌>>◌
abbrev pub ◌>>=◌ {κ ℓ} : {B : Type κ} {A : Type ℓ} → Result A → (A → Result B) → Result B
thrown >>= next = elim thrown [ ok value ↦ next value | err code ↦ err code ]

abbrev pub ◌>>◌ {ℓ} : {B : Type ℓ} → Result (Unit {0}) → Result B → Result B
test >> next = test >>= λ passed. next

-- A chain that returned has returned at each step.
pub >>=-eq-ok {κ ℓ} :
    {B : Type κ} {A : Type ℓ} {result : B} (step : Result A) (next : A → Result B)
    → (step >>= next) ≡ ok result
    → (value : A) × (next value ≡ ok result) × (step ≡ ok value)
>>=-eq-ok (err code) next h = cc
>>=-eq-ok (ok value) next h = (value, h, refl)

pub >>-eq-ok {ℓ} :
    {B : Type ℓ} {result : B} (test : Bool) (code : ErrorCode) (next : Result B)
    → (require test code >> next) ≡ ok result
    → (next ≡ ok result) × (test ≡ true)
>>-eq-ok false code next h = cc
>>-eq-ok true code next h = (h, refl)
