-- ===== src/Policy/Qualify.antt =====
-- `qualifies_technically`: every mandatory requirement has an assessment that does not block.
pub mod Complete
use Prim.Native.Nat.{Ordering}
use Prim.Native.String.{compare}
use procurement_automation.Prelude.{
  Bool, true, false, if◌then◌else◌, Option, none, some, List, [], ◌∷◌, String, is_empty,
}
use procurement_automation.Prelude.Dict
use procurement_automation.Prelude.Dict.{Dict}
use procurement_automation.Vocabulary.Technical.{ComplianceStatus}
use procurement_automation.Requirement
use procurement_automation.Requirement.{Requirement, ComplianceAssessment}

-- Why a supplier does not qualify.
pub data Blocker : Type 0 where
  not_assessed : String → Blocker
  blocked : String → ComplianceStatus → String → Blocker

-- `s` before, at or after the head `t` of a sorted list; `later` holds it in the tail.
abbrev pub placed : Ordering → String → String → List String → List String → List String
placed Ordering.lt s t rest later = s ∷ t ∷ rest
placed Ordering.eq s t rest later = t ∷ rest
placed Ordering.gt s t rest later = t ∷ later

-- One more text in a sorted list without duplicates.
unfoldable pub insert_sorted : String → List String → List String
insert_sorted s [] = s ∷ []
insert_sorted s (t ∷ rest) = placed (compare s t) s t rest (insert_sorted s rest)

-- `sorted({r.requirement_id for r in requirements if r.is_mandatory})`
unfoldable pub mandatory_ids : List Requirement → List String
mandatory_ids [] = []
mandatory_ids (r ∷ rest) =
    let others = mandatory_ids rest in
    if Requirement.is_mandatory r.obligation then insert_sorted r.requirement_id others else others

-- `{a.requirement_id: a for a in assessments}`: the last one of an id counts.
unfoldable pub by_requirement :
    List ComplianceAssessment → Dict ComplianceAssessment → Dict ComplianceAssessment
by_requirement [] d = d
by_requirement (a ∷ rest) d = by_requirement rest (Dict.put d a.requirement_id a)

abbrev pub blocker : String → Option ComplianceAssessment → List Blocker → List Blocker
blocker i none rest = not_assessed i ∷ rest
blocker i (some a) rest =
    if Requirement.blocks_qualification a then blocked i a.status a.rationale ∷ rest else rest

unfoldable pub blockers_of : List String → Dict ComplianceAssessment → List Blocker
blockers_of [] d = []
blockers_of (i ∷ rest) d = blocker i (Dict.get d i) (blockers_of rest d)

-- The blockers, and whether there are none.
unfoldable pub qualifies_technically :
    List ComplianceAssessment → List Requirement → Bool × List Blocker
unfolding mandatory_ids by_requirement blockers_of
qualifies_technically assessments requirements =
    let blockers = blockers_of (mandatory_ids requirements) (by_requirement assessments []) in
    (is_empty blockers, blockers)
