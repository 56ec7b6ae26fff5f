-- ===== src/Case/Edges.antt =====
-- The state graph as a relation.
use procurement_automation.Prelude.{◌≡◌, refl, true}
use procurement_automation.Vocabulary.Case.{CaseState}
use procurement_automation.Case.Graph.{can_move}

infix 40 ◌⟶◌
-- Progress, by stage; every other edge leaves the normal course.
pub data ◌⟶◌ : CaseState → CaseState → Type 0 where
  received_validating_pr : CaseState.received ⟶ CaseState.validating_pr
  received_cancelled : CaseState.received ⟶ CaseState.cancelled
  received_failed : CaseState.received ⟶ CaseState.failed
  validating_pr_waiting_for_engineering :
      CaseState.validating_pr ⟶ CaseState.waiting_for_engineering
  validating_pr_sourcing_strategy : CaseState.validating_pr ⟶ CaseState.sourcing_strategy
  validating_pr_cancelled : CaseState.validating_pr ⟶ CaseState.cancelled
  validating_pr_failed : CaseState.validating_pr ⟶ CaseState.failed
  waiting_for_engineering_validating_pr :
      CaseState.waiting_for_engineering ⟶ CaseState.validating_pr
  waiting_for_engineering_sourcing_strategy :
      CaseState.waiting_for_engineering ⟶ CaseState.sourcing_strategy
  waiting_for_engineering_cancelled : CaseState.waiting_for_engineering ⟶ CaseState.cancelled
  waiting_for_engineering_failed : CaseState.waiting_for_engineering ⟶ CaseState.failed
  sourcing_strategy_ready_for_rfq : CaseState.sourcing_strategy ⟶ CaseState.ready_for_rfq
  sourcing_strategy_waiting_for_engineering :
      CaseState.sourcing_strategy ⟶ CaseState.waiting_for_engineering
  sourcing_strategy_cancelled : CaseState.sourcing_strategy ⟶ CaseState.cancelled
  sourcing_strategy_failed : CaseState.sourcing_strategy ⟶ CaseState.failed
  ready_for_rfq_waiting_for_quotes : CaseState.ready_for_rfq ⟶ CaseState.waiting_for_quotes
  ready_for_rfq_sourcing_strategy : CaseState.ready_for_rfq ⟶ CaseState.sourcing_strategy
  ready_for_rfq_cancelled : CaseState.ready_for_rfq ⟶ CaseState.cancelled
  ready_for_rfq_failed : CaseState.ready_for_rfq ⟶ CaseState.failed
  waiting_for_quotes_technical_evaluation :
      CaseState.waiting_for_quotes ⟶ CaseState.technical_evaluation
  waiting_for_quotes_ready_for_rfq : CaseState.waiting_for_quotes ⟶ CaseState.ready_for_rfq
  waiting_for_quotes_cancelled : CaseState.waiting_for_quotes ⟶ CaseState.cancelled
  waiting_for_quotes_failed : CaseState.waiting_for_quotes ⟶ CaseState.failed
  technical_evaluation_waiting_for_technical_approval :
      CaseState.technical_evaluation ⟶ CaseState.waiting_for_technical_approval
  technical_evaluation_waiting_for_quotes :
      CaseState.technical_evaluation ⟶ CaseState.waiting_for_quotes
  technical_evaluation_cancelled : CaseState.technical_evaluation ⟶ CaseState.cancelled
  technical_evaluation_failed : CaseState.technical_evaluation ⟶ CaseState.failed
  waiting_for_technical_approval_commercial_evaluation :
      CaseState.waiting_for_technical_approval ⟶ CaseState.commercial_evaluation
  waiting_for_technical_approval_technical_evaluation :
      CaseState.waiting_for_technical_approval ⟶ CaseState.technical_evaluation
  waiting_for_technical_approval_ready_for_rfq :
      CaseState.waiting_for_technical_approval ⟶ CaseState.ready_for_rfq
  waiting_for_technical_approval_cancelled :
      CaseState.waiting_for_technical_approval ⟶ CaseState.cancelled
  waiting_for_technical_approval_failed :
      CaseState.waiting_for_technical_approval ⟶ CaseState.failed
  commercial_evaluation_negotiation : CaseState.commercial_evaluation ⟶ CaseState.negotiation
  commercial_evaluation_waiting_for_award_approval :
      CaseState.commercial_evaluation ⟶ CaseState.waiting_for_award_approval
  commercial_evaluation_cancelled : CaseState.commercial_evaluation ⟶ CaseState.cancelled
  commercial_evaluation_failed : CaseState.commercial_evaluation ⟶ CaseState.failed
  negotiation_negotiation : CaseState.negotiation ⟶ CaseState.negotiation
  negotiation_commercial_evaluation : CaseState.negotiation ⟶ CaseState.commercial_evaluation
  negotiation_waiting_for_award_approval :
      CaseState.negotiation ⟶ CaseState.waiting_for_award_approval
  negotiation_cancelled : CaseState.negotiation ⟶ CaseState.cancelled
  negotiation_failed : CaseState.negotiation ⟶ CaseState.failed
  waiting_for_award_approval_po_recommendation :
      CaseState.waiting_for_award_approval ⟶ CaseState.po_recommendation
  waiting_for_award_approval_negotiation :
      CaseState.waiting_for_award_approval ⟶ CaseState.negotiation
  waiting_for_award_approval_commercial_evaluation :
      CaseState.waiting_for_award_approval ⟶ CaseState.commercial_evaluation
  waiting_for_award_approval_cancelled : CaseState.waiting_for_award_approval ⟶ CaseState.cancelled
  waiting_for_award_approval_failed : CaseState.waiting_for_award_approval ⟶ CaseState.failed
  po_recommendation_order_placed : CaseState.po_recommendation ⟶ CaseState.order_placed
  po_recommendation_waiting_for_award_approval :
      CaseState.po_recommendation ⟶ CaseState.waiting_for_award_approval
  po_recommendation_cancelled : CaseState.po_recommendation ⟶ CaseState.cancelled
  po_recommendation_failed : CaseState.po_recommendation ⟶ CaseState.failed
  order_placed_expediting : CaseState.order_placed ⟶ CaseState.expediting
  order_placed_completed : CaseState.order_placed ⟶ CaseState.completed
  order_placed_cancelled : CaseState.order_placed ⟶ CaseState.cancelled
  expediting_expediting : CaseState.expediting ⟶ CaseState.expediting
  expediting_completed : CaseState.expediting ⟶ CaseState.completed
  expediting_cancelled : CaseState.expediting ⟶ CaseState.cancelled
  failed_validating_pr : CaseState.failed ⟶ CaseState.validating_pr
  failed_cancelled : CaseState.failed ⟶ CaseState.cancelled

-- Each edge of the relation is one that the table accepts.
pub ⟶-can_move : {s t : CaseState} → s ⟶ t → can_move s t ≡ true
unfolding can_move
⟶-can_move received_validating_pr = refl
⟶-can_move received_cancelled = refl
⟶-can_move received_failed = refl
⟶-can_move validating_pr_waiting_for_engineering = refl
⟶-can_move validating_pr_sourcing_strategy = refl
⟶-can_move validating_pr_cancelled = refl
⟶-can_move validating_pr_failed = refl
⟶-can_move waiting_for_engineering_validating_pr = refl
⟶-can_move waiting_for_engineering_sourcing_strategy = refl
⟶-can_move waiting_for_engineering_cancelled = refl
⟶-can_move waiting_for_engineering_failed = refl
⟶-can_move sourcing_strategy_ready_for_rfq = refl
⟶-can_move sourcing_strategy_waiting_for_engineering = refl
⟶-can_move sourcing_strategy_cancelled = refl
⟶-can_move sourcing_strategy_failed = refl
⟶-can_move ready_for_rfq_waiting_for_quotes = refl
⟶-can_move ready_for_rfq_sourcing_strategy = refl
⟶-can_move ready_for_rfq_cancelled = refl
⟶-can_move ready_for_rfq_failed = refl
⟶-can_move waiting_for_quotes_technical_evaluation = refl
⟶-can_move waiting_for_quotes_ready_for_rfq = refl
⟶-can_move waiting_for_quotes_cancelled = refl
⟶-can_move waiting_for_quotes_failed = refl
⟶-can_move technical_evaluation_waiting_for_technical_approval = refl
⟶-can_move technical_evaluation_waiting_for_quotes = refl
⟶-can_move technical_evaluation_cancelled = refl
⟶-can_move technical_evaluation_failed = refl
⟶-can_move waiting_for_technical_approval_commercial_evaluation = refl
⟶-can_move waiting_for_technical_approval_technical_evaluation = refl
⟶-can_move waiting_for_technical_approval_ready_for_rfq = refl
⟶-can_move waiting_for_technical_approval_cancelled = refl
⟶-can_move waiting_for_technical_approval_failed = refl
⟶-can_move commercial_evaluation_negotiation = refl
⟶-can_move commercial_evaluation_waiting_for_award_approval = refl
⟶-can_move commercial_evaluation_cancelled = refl
⟶-can_move commercial_evaluation_failed = refl
⟶-can_move negotiation_negotiation = refl
⟶-can_move negotiation_commercial_evaluation = refl
⟶-can_move negotiation_waiting_for_award_approval = refl
⟶-can_move negotiation_cancelled = refl
⟶-can_move negotiation_failed = refl
⟶-can_move waiting_for_award_approval_po_recommendation = refl
⟶-can_move waiting_for_award_approval_negotiation = refl
⟶-can_move waiting_for_award_approval_commercial_evaluation = refl
⟶-can_move waiting_for_award_approval_cancelled = refl
⟶-can_move waiting_for_award_approval_failed = refl
⟶-can_move po_recommendation_order_placed = refl
⟶-can_move po_recommendation_waiting_for_award_approval = refl
⟶-can_move po_recommendation_cancelled = refl
⟶-can_move po_recommendation_failed = refl
⟶-can_move order_placed_expediting = refl
⟶-can_move order_placed_completed = refl
⟶-can_move order_placed_cancelled = refl
⟶-can_move expediting_expediting = refl
⟶-can_move expediting_completed = refl
⟶-can_move expediting_cancelled = refl
⟶-can_move failed_validating_pr = refl
⟶-can_move failed_cancelled = refl

-- The table accepts an edge of the relation only.
pub can_move-⟶ : (s t : CaseState) → can_move s t ≡ true → s ⟶ t
unfolding can_move
can_move-⟶ CaseState.received CaseState.validating_pr h = received_validating_pr
can_move-⟶ CaseState.received CaseState.cancelled h = received_cancelled
can_move-⟶ CaseState.received CaseState.failed h = received_failed
can_move-⟶ CaseState.validating_pr CaseState.waiting_for_engineering h =
    validating_pr_waiting_for_engineering
can_move-⟶ CaseState.validating_pr CaseState.sourcing_strategy h = validating_pr_sourcing_strategy
can_move-⟶ CaseState.validating_pr CaseState.cancelled h = validating_pr_cancelled
can_move-⟶ CaseState.validating_pr CaseState.failed h = validating_pr_failed
can_move-⟶ CaseState.waiting_for_engineering CaseState.validating_pr h =
    waiting_for_engineering_validating_pr
can_move-⟶ CaseState.waiting_for_engineering CaseState.sourcing_strategy h =
    waiting_for_engineering_sourcing_strategy
can_move-⟶ CaseState.waiting_for_engineering CaseState.cancelled h =
    waiting_for_engineering_cancelled
can_move-⟶ CaseState.waiting_for_engineering CaseState.failed h = waiting_for_engineering_failed
can_move-⟶ CaseState.sourcing_strategy CaseState.ready_for_rfq h = sourcing_strategy_ready_for_rfq
can_move-⟶ CaseState.sourcing_strategy CaseState.waiting_for_engineering h =
    sourcing_strategy_waiting_for_engineering
can_move-⟶ CaseState.sourcing_strategy CaseState.cancelled h = sourcing_strategy_cancelled
can_move-⟶ CaseState.sourcing_strategy CaseState.failed h = sourcing_strategy_failed
can_move-⟶ CaseState.ready_for_rfq CaseState.waiting_for_quotes h = ready_for_rfq_waiting_for_quotes
can_move-⟶ CaseState.ready_for_rfq CaseState.sourcing_strategy h = ready_for_rfq_sourcing_strategy
can_move-⟶ CaseState.ready_for_rfq CaseState.cancelled h = ready_for_rfq_cancelled
can_move-⟶ CaseState.ready_for_rfq CaseState.failed h = ready_for_rfq_failed
can_move-⟶ CaseState.waiting_for_quotes CaseState.technical_evaluation h =
    waiting_for_quotes_technical_evaluation
can_move-⟶ CaseState.waiting_for_quotes CaseState.ready_for_rfq h = waiting_for_quotes_ready_for_rfq
can_move-⟶ CaseState.waiting_for_quotes CaseState.cancelled h = waiting_for_quotes_cancelled
can_move-⟶ CaseState.waiting_for_quotes CaseState.failed h = waiting_for_quotes_failed
can_move-⟶ CaseState.technical_evaluation CaseState.waiting_for_technical_approval h =
    technical_evaluation_waiting_for_technical_approval
can_move-⟶ CaseState.technical_evaluation CaseState.waiting_for_quotes h =
    technical_evaluation_waiting_for_quotes
can_move-⟶ CaseState.technical_evaluation CaseState.cancelled h = technical_evaluation_cancelled
can_move-⟶ CaseState.technical_evaluation CaseState.failed h = technical_evaluation_failed
can_move-⟶ CaseState.waiting_for_technical_approval CaseState.commercial_evaluation h =
    waiting_for_technical_approval_commercial_evaluation
can_move-⟶ CaseState.waiting_for_technical_approval CaseState.technical_evaluation h =
    waiting_for_technical_approval_technical_evaluation
can_move-⟶ CaseState.waiting_for_technical_approval CaseState.ready_for_rfq h =
    waiting_for_technical_approval_ready_for_rfq
can_move-⟶ CaseState.waiting_for_technical_approval CaseState.cancelled h =
    waiting_for_technical_approval_cancelled
can_move-⟶ CaseState.waiting_for_technical_approval CaseState.failed h =
    waiting_for_technical_approval_failed
can_move-⟶ CaseState.commercial_evaluation CaseState.negotiation h =
    commercial_evaluation_negotiation
can_move-⟶ CaseState.commercial_evaluation CaseState.waiting_for_award_approval h =
    commercial_evaluation_waiting_for_award_approval
can_move-⟶ CaseState.commercial_evaluation CaseState.cancelled h = commercial_evaluation_cancelled
can_move-⟶ CaseState.commercial_evaluation CaseState.failed h = commercial_evaluation_failed
can_move-⟶ CaseState.negotiation CaseState.negotiation h = negotiation_negotiation
can_move-⟶ CaseState.negotiation CaseState.commercial_evaluation h =
    negotiation_commercial_evaluation
can_move-⟶ CaseState.negotiation CaseState.waiting_for_award_approval h =
    negotiation_waiting_for_award_approval
can_move-⟶ CaseState.negotiation CaseState.cancelled h = negotiation_cancelled
can_move-⟶ CaseState.negotiation CaseState.failed h = negotiation_failed
can_move-⟶ CaseState.waiting_for_award_approval CaseState.po_recommendation h =
    waiting_for_award_approval_po_recommendation
can_move-⟶ CaseState.waiting_for_award_approval CaseState.negotiation h =
    waiting_for_award_approval_negotiation
can_move-⟶ CaseState.waiting_for_award_approval CaseState.commercial_evaluation h =
    waiting_for_award_approval_commercial_evaluation
can_move-⟶ CaseState.waiting_for_award_approval CaseState.cancelled h =
    waiting_for_award_approval_cancelled
can_move-⟶ CaseState.waiting_for_award_approval CaseState.failed h =
    waiting_for_award_approval_failed
can_move-⟶ CaseState.po_recommendation CaseState.order_placed h = po_recommendation_order_placed
can_move-⟶ CaseState.po_recommendation CaseState.waiting_for_award_approval h =
    po_recommendation_waiting_for_award_approval
can_move-⟶ CaseState.po_recommendation CaseState.cancelled h = po_recommendation_cancelled
can_move-⟶ CaseState.po_recommendation CaseState.failed h = po_recommendation_failed
can_move-⟶ CaseState.order_placed CaseState.expediting h = order_placed_expediting
can_move-⟶ CaseState.order_placed CaseState.completed h = order_placed_completed
can_move-⟶ CaseState.order_placed CaseState.cancelled h = order_placed_cancelled
can_move-⟶ CaseState.expediting CaseState.expediting h = expediting_expediting
can_move-⟶ CaseState.expediting CaseState.completed h = expediting_completed
can_move-⟶ CaseState.expediting CaseState.cancelled h = expediting_cancelled
can_move-⟶ CaseState.failed CaseState.validating_pr h = failed_validating_pr
can_move-⟶ CaseState.failed CaseState.cancelled h = failed_cancelled
can_move-⟶ _ _ h = cc
