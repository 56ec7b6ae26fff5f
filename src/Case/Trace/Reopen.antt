-- ===== src/Case/Trace/Reopen.antt =====
-- An unlocked case may follow any legal route without a further unlock.
use procurement_automation.Prelude.{ℕ, ◌≡◌, List, [], ◌∷◌, String, true, false, arith}
use procurement_automation.Vocabulary.Case.{CaseState}
use procurement_automation.Case.Graph.{can_move}
use procurement_automation.Case.{SourcingCase, transition, can_transition, moved, is_state}
use procurement_automation.Case.Trace.Calls.{move, Timed, after, run}

-- Legal moves between different states, none of them to PO_RECOMMENDATION.
abbrev pub IsRoute : CaseState → List CaseState → Type 0
IsRoute s [] = Unit
IsRoute s (t ∷ ts) =
    (can_move s t ≡ true)
    × (is_state t s ≡ false)
    × (is_state t CaseState.po_recommendation ≡ false)
    × IsRoute t ts

abbrev pub last_state : CaseState → List CaseState → CaseState
last_state s [] = s
last_state s (t ∷ ts) = last_state t ts

abbrev pub moves : String → String → ℕ → List CaseState → List Timed
moves actor reason now [] = []
moves actor reason now (t ∷ ts) = (move t actor reason, now) ∷ moves actor reason now ts

step_route :
    (s t : CaseState) (actor reason : String) (now : ℕ) (c : SourcingCase)
    → c.state ≡ s
    → c.commercial_unlocked ≡ true
    → can_move s t ≡ true
    → is_state t s ≡ false
    → is_state t CaseState.po_recommendation ≡ false
    → let c' = after (move t actor reason, now) c in
      (c'.state ≡ t) × (c'.commercial_unlocked ≡ true)
unfolding after transition moved can_transition
step_route s t actor reason now c e u legal fresh plain =
    let here : can_move c.state t ≡ true = rw e legal in
    let other : is_state t c.state ≡ false = rw e fresh in ground arith

follow_route :
    (s : CaseState) (ts : List CaseState) (actor reason : String) (now : ℕ) (c : SourcingCase)
    → c.state ≡ s
    → c.commercial_unlocked ≡ true
    → IsRoute s ts
    → (run (moves actor reason now ts) c).state ≡ last_state s ts
unfolding run
follow_route s [] actor reason now c e u r = e
follow_route s (t ∷ ts) actor reason now c e u (legal, fresh, plain, rest) =
    let (e', u') = step_route s t actor reason now c e u legal fresh plain in
    follow_route t ts actor reason now (after (move t actor reason, now) c) e' u' rest

-- From FAILED by way of a new requisition check and new quotations to COMMERCIAL_EVALUATION.
abbrev pub restart : List CaseState
restart =
    CaseState.validating_pr ∷ CaseState.sourcing_strategy ∷ CaseState.ready_for_rfq
    ∷ CaseState.waiting_for_quotes ∷ CaseState.technical_evaluation
    ∷ CaseState.waiting_for_technical_approval ∷ CaseState.commercial_evaluation ∷ []

restart-IsRoute : IsRoute CaseState.failed restart
unfolding can_move is_state
restart-IsRoute = ground arith

-- An unlocked case that failed can be restarted and taken through new quotations and a new
-- technical evaluation into COMMERCIAL_EVALUATION by transitions alone, made by any actor, with
-- no new call of `unlock_commercial`.
pub restart_unsealed :
    (actor reason : String) (now : ℕ) (c : SourcingCase)
    → c.state ≡ CaseState.failed
    → c.commercial_unlocked ≡ true
    → (run (moves actor reason now restart) c).state ≡ CaseState.commercial_evaluation
restart_unsealed actor reason now c e u =
    follow_route CaseState.failed restart actor reason now c e u restart-IsRoute
