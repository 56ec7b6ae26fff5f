-- ===== src/Case/Trace/Calls.antt =====
-- One call of a method of `SourcingCase`, and a run of calls. The caller of a failed call sees the
-- exception, and the case goes on from what the call left.
use procurement_automation.Prelude.{ℕ, List, [], ◌∷◌, String}
use procurement_automation.Vocabulary.Case.{CaseState}
use procurement_automation.Case.{
  SourcingCase, transition, unlock_commercial, record_award_approval, register_reminder,
  open_negotiation_round,
}
use procurement_automation.Case.Invariant.{
  IsSound, transition-IsSound, unlock_commercial-IsSound, record_award_approval-IsSound,
  register_reminder-IsSound, open_negotiation_round-IsSound,
}

pub data Call : Type 0 where
  move : CaseState → String → String → Call
  unlock : String → Call
  award : String → String → Call
  remind : String → ℕ → Call
  negotiate : ℕ → Call

-- A call and its time.
abbrev pub Timed : Type 0
Timed = Call × ℕ

unfoldable pub after : Timed → SourcingCase → SourcingCase
after (move s actor reason, now) c = (transition s actor reason now c).1
after (unlock actor, now) c = (unlock_commercial actor now c).1
after (award actor supplier, now) c = (record_award_approval actor supplier now c).1
after (remind supplier limit, now) c = (register_reminder supplier limit now c).1
after (negotiate limit, now) c = (open_negotiation_round limit now c).1

unfoldable pub run : List Timed → SourcingCase → SourcingCase
run [] c = c
run (call ∷ calls) c = run calls (after call c)

pub after-IsSound : (call : Timed) (c : SourcingCase) → IsSound c → IsSound (after call c)
unfolding after
after-IsSound (move s actor reason, now) c v = transition-IsSound c now v s actor reason
after-IsSound (unlock actor, now) c v = unlock_commercial-IsSound c now v actor
after-IsSound (award actor supplier, now) c v = record_award_approval-IsSound c now v actor supplier
after-IsSound (remind supplier limit, now) c v = register_reminder-IsSound c now v supplier limit
after-IsSound (negotiate limit, now) c v = open_negotiation_round-IsSound c now v limit
