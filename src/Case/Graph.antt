-- ===== src/Case/Graph.antt =====
-- `LEGAL_TRANSITIONS`, the legal state graph of a case (procureguard/domain/entities.py).
use procurement_automation.Prelude.{Bool, List, [], ◌∷◌, contains}
use procurement_automation.Vocabulary.Case.{CaseState, CaseState-discrete}

-- The states that a case may enter next.
unfoldable pub legal_transitions : CaseState → List CaseState
legal_transitions CaseState.received =
    CaseState.validating_pr ∷ CaseState.cancelled ∷ CaseState.failed ∷ []
legal_transitions CaseState.validating_pr =
    CaseState.waiting_for_engineering ∷ CaseState.sourcing_strategy ∷ CaseState.cancelled
    ∷ CaseState.failed ∷ []
legal_transitions CaseState.waiting_for_engineering =
    CaseState.validating_pr ∷ CaseState.sourcing_strategy ∷ CaseState.cancelled ∷ CaseState.failed
    ∷ []
legal_transitions CaseState.sourcing_strategy =
    CaseState.ready_for_rfq ∷ CaseState.waiting_for_engineering ∷ CaseState.cancelled
    ∷ CaseState.failed ∷ []
legal_transitions CaseState.ready_for_rfq =
    CaseState.waiting_for_quotes ∷ CaseState.sourcing_strategy ∷ CaseState.cancelled
    ∷ CaseState.failed ∷ []
legal_transitions CaseState.waiting_for_quotes =
    CaseState.technical_evaluation ∷ CaseState.ready_for_rfq ∷ CaseState.cancelled
    ∷ CaseState.failed ∷ []
legal_transitions CaseState.technical_evaluation =
    CaseState.waiting_for_technical_approval ∷ CaseState.waiting_for_quotes ∷ CaseState.cancelled
    ∷ CaseState.failed ∷ []
legal_transitions CaseState.waiting_for_technical_approval =
    CaseState.commercial_evaluation ∷ CaseState.technical_evaluation ∷ CaseState.ready_for_rfq
    ∷ CaseState.cancelled ∷ CaseState.failed ∷ []
legal_transitions CaseState.commercial_evaluation =
    CaseState.negotiation ∷ CaseState.waiting_for_award_approval ∷ CaseState.cancelled
    ∷ CaseState.failed ∷ []
legal_transitions CaseState.negotiation =
    CaseState.negotiation ∷ CaseState.commercial_evaluation ∷ CaseState.waiting_for_award_approval
    ∷ CaseState.cancelled ∷ CaseState.failed ∷ []
legal_transitions CaseState.waiting_for_award_approval =
    CaseState.po_recommendation ∷ CaseState.negotiation ∷ CaseState.commercial_evaluation
    ∷ CaseState.cancelled ∷ CaseState.failed ∷ []
legal_transitions CaseState.po_recommendation =
    CaseState.order_placed ∷ CaseState.waiting_for_award_approval ∷ CaseState.cancelled
    ∷ CaseState.failed ∷ []
legal_transitions CaseState.order_placed =
    CaseState.expediting ∷ CaseState.completed ∷ CaseState.cancelled ∷ []
legal_transitions CaseState.expediting =
    CaseState.expediting ∷ CaseState.completed ∷ CaseState.cancelled ∷ []
legal_transitions CaseState.completed = []
legal_transitions CaseState.cancelled = []
legal_transitions CaseState.failed = CaseState.validating_pr ∷ CaseState.cancelled ∷ []

-- `new_state in LEGAL_TRANSITIONS.get(state, frozenset())`
unfoldable pub can_move : CaseState → CaseState → Bool
unfolding legal_transitions CaseState-discrete
can_move state new_state = contains CaseState-discrete (legal_transitions state) new_state
