-- ===== src/Case.antt =====
-- The sourcing case: its state graph, its record and the methods that guard it
-- (procureguard/domain/entities.py). A time is a number of microseconds; `utcnow()` is an
-- argument `now` of each method.
pub mod Graph
pub mod Edges
pub mod Methods
pub mod Invariant
pub mod Trace
use procurement_automation.Prelude.{
  ℕ, suc, ◌+◌, leb, Bool, true, false, not, ◌&&◌, ◌||◌, if◌then◌else◌, Option, none, some, List, [],
  ◌∷◌, ◌++◌, String, str_eq, eq_of, eq_of_sound, eq_of_complete, ◌≡◌,
}
use procurement_automation.Prelude.Dict
use procurement_automation.Prelude.Dict.{Dict}
use procurement_automation.Errors.{Error, Result, ok, err, Action}
use procurement_automation.Vocabulary.Case.{CaseState, CaseState-discrete}
use procurement_automation.Decimal.{Decimal, of_ℕ}
use Graph.{can_move}

-- One entry of `state_history`.
pub record HistoryEntry : Type 0 where
  pub from_state : CaseState
  pub to_state : CaseState
  pub actor : String
  pub reason : String
  pub at_time : ℕ

-- `SourcingCase`
pub record SourcingCase : Type 0 where
  pub case_id : String
  pub pr_number : String
  pub state : CaseState
  pub tenant_id : String
  pub commercial_unlocked : Bool
  pub technical_approved_at : Option ℕ
  pub award_approved_at : Option ℕ
  pub reminder_count_by_supplier : Dict ℕ
  pub negotiation_round : ℕ
  pub awarded_supplier_id : String
  pub estimated_value_base : Decimal
  pub base_currency : String
  pub created_at : ℕ
  pub updated_at : ℕ
  pub version : ℕ
  pub state_history : List HistoryEntry
  pub cancellation_reason : String
  pub failure_reason : String

-- A case with the defaults of the class.
unfoldable pub new_case : String → String → ℕ → SourcingCase
new_case case_id pr_number now = record {
  case_id = case_id;
  pr_number = pr_number;
  state = CaseState.received;
  tenant_id = "";
  commercial_unlocked = false;
  technical_approved_at = none;
  award_approved_at = none;
  reminder_count_by_supplier = [];
  negotiation_round = 0;
  awarded_supplier_id = "";
  estimated_value_base = of_ℕ 0;
  base_currency = "USD";
  created_at = now;
  updated_at = now;
  version = 1;
  state_history = [];
  cancellation_reason = "";
  failure_reason = "";
}

abbrev pub is_none {ℓ} : {A : Type ℓ} → Option A → Bool
is_none none = true
is_none (some _) = false

-- The two states that a case may enter from themselves.
abbrev pub repeats : CaseState → Bool
repeats CaseState.negotiation = true
repeats CaseState.expediting = true
repeats _ = false

-- `not actor or actor == "SYSTEM"`
abbrev pub is_system : String → Bool
is_system actor = str_eq actor "" || str_eq actor "SYSTEM"

-- `s == t`
unfoldable pub is_state : CaseState → CaseState → Bool
unfolding CaseState-discrete
is_state s t = eq_of CaseState-discrete s t

pub is_state_sound : {s t : CaseState} → is_state s t ≡ true → s ≡ t
unfolding is_state
is_state_sound {s} {t} h = eq_of_sound CaseState-discrete s t h

pub is_state_complete : {s t : CaseState} → s ≡ t → is_state s t ≡ true
unfolding is_state
is_state_complete {s} {t} p = eq_of_complete CaseState-discrete s t p

-- `can_transition`
unfoldable pub can_transition : SourcingCase → CaseState → Bool
unfolding can_move
can_transition c new_state = can_move c.state new_state

-- The fields that an accepted transition writes.
unfoldable pub moved : CaseState → String → String → ℕ → SourcingCase → SourcingCase
moved new_state actor reason now c = record c {
  state = new_state;
  updated_at = now;
  version = c.version + 1;
  state_history =
      c.state_history
      ++ record {
        from_state = c.state;
        to_state = new_state;
        actor = actor;
        reason = reason;
        at_time = now;
      }
        ∷ [];
  cancellation_reason =
      (if is_state new_state CaseState.cancelled && not (str_eq reason "")
        then reason
        else c.cancellation_reason);
  failure_reason =
      (if is_state new_state CaseState.failed && not (str_eq reason "")
        then reason
        else c.failure_reason);
}

-- `transition`
unfoldable pub transition : CaseState → String → String → ℕ → Action SourcingCase (Unit {0})
transition new_state actor reason now c =
    if is_state new_state c.state && not (repeats new_state)
    then (ok tt, c)
    else if not (can_transition c new_state)
    then (err Error.unsafe_transition, c)
    else if is_state new_state CaseState.commercial_evaluation && not c.commercial_unlocked
    then (err Error.unsafe_transition, c)
    else if is_state new_state CaseState.po_recommendation && is_none c.award_approved_at
    then (err Error.unsafe_transition, c)
    else (ok tt, moved new_state actor reason now c)

-- `unlock_commercial`
unfoldable pub unlock_commercial : String → ℕ → Action SourcingCase (Unit {0})
unlock_commercial actor now c =
    if not (is_state c.state CaseState.waiting_for_technical_approval)
    then (err Error.unsafe_transition, c)
    else if is_system actor
    then (err Error.policy_violation, c)
    else (
      ok tt,
      record c { commercial_unlocked = true; technical_approved_at = some now; updated_at = now },
    )

-- `record_award_approval`
unfoldable pub record_award_approval : String → String → ℕ → Action SourcingCase (Unit {0})
record_award_approval actor supplier_id now c =
    if not (is_state c.state CaseState.waiting_for_award_approval)
    then (err Error.unsafe_transition, c)
    else if is_system actor
    then (err Error.policy_violation, c)
    else if str_eq supplier_id ""
    then (err Error.validation, c)
    else (
      ok tt,
      record c {
        award_approved_at = some now;
        awarded_supplier_id = supplier_id;
        updated_at = now;
      },
    )

-- `register_reminder`
unfoldable pub register_reminder : String → ℕ → ℕ → Action SourcingCase ℕ
register_reminder supplier_id max_reminders now c =
    let sent = Dict.get_or c.reminder_count_by_supplier supplier_id 0 in
    if not (is_state c.state CaseState.waiting_for_quotes)
    then (err Error.domain_invariant, c)
    else if leb max_reminders sent
    then (err Error.domain_invariant, c)
    else (
      ok (sent + 1),
      record c {
        reminder_count_by_supplier = Dict.put c.reminder_count_by_supplier supplier_id (sent + 1);
        updated_at = now;
      },
    )

-- `open_negotiation_round`
unfoldable pub open_negotiation_round : ℕ → ℕ → Action SourcingCase ℕ
open_negotiation_round max_rounds now c =
    if not
      (is_state c.state CaseState.commercial_evaluation || is_state c.state CaseState.negotiation)
    then (err Error.unsafe_transition, c)
    else if not c.commercial_unlocked
    then (err Error.unsafe_transition, c)
    else if leb max_rounds c.negotiation_round
    then (err Error.domain_invariant, c)
    else (
      ok (c.negotiation_round + 1),
      record c { negotiation_round = c.negotiation_round + 1; updated_at = now },
    )
