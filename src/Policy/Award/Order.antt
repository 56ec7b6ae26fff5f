-- ===== src/Policy/Award/Order.antt =====
-- How the chain depends on the award value, on the order of the approvals and on who signs.
use procurement_automation.Prelude.{
  ◌≡◌, ◌∙◌, keep, is_empty, inl, inr, Bool, true, false, ◌&&◌, List, [], ◌∷◌, ◌++◌, String, str_eq,
  eq_refl, All, Any, arith, Bool-cases,
}
use procurement_automation.Decimal
use procurement_automation.Decimal.{Decimal}
use procurement_automation.Decimal.Order.{le_trans}
use procurement_automation.Vocabulary.Case.{ApprovalType}
use procurement_automation.Approval
use procurement_automation.Approval.{Approval}
use procurement_automation.Policy.{ProcurementPolicy}
use procurement_automation.Policy.Gate.{is_type}
use procurement_automation.Policy.Award.{
  ApprovalRequirement, is_eligible, is_consumed, matches, missing_from, award_chain_satisfied,
  approval_chain_for_award, added_if, standard_award, dual_award, executive_award, single_source,
  deviations,
}

-- Every requirement of one chain is in the other.
abbrev pub IsPartOf : List ApprovalRequirement → List ApprovalRequirement → Type 0
IsPartOf xs ys = All (λ r. Any (λ s. s ≡ r) ys) xs

-- Both texts are at hand: the tests of the thresholds for two values.
abbrev chain_of : Bool → Bool → Bool → Bool → List ApprovalRequirement
chain_of d e s v =
    standard_award
    ∷ (added_if d dual_award
        ++ (added_if e executive_award ++ (added_if s single_source ++ added_if v deviations)))

chain_grows :
    (d d' e e' s v : Bool)
    → (d ≡ true → d' ≡ true)
    → (e ≡ true → e' ≡ true)
    → IsPartOf (chain_of d e s v) (chain_of d' e' s v)
chain_grows d d' e e' s v hd he = ground arith

-- A higher award value asks for every signature that a lower one does.
pub chain_monotone :
    (p : ProcurementPolicy) (low high : Decimal) (is_single_source has_deviations : Bool)
    → Decimal.le low high ≡ true
    → IsPartOf
        (approval_chain_for_award p low is_single_source has_deviations)
        (approval_chain_for_award p high is_single_source has_deviations)
unfolding approval_chain_for_award
chain_monotone p low high is_single_source has_deviations h =
    chain_grows _ _ _ _ (is_single_source && p.single_source_justification_required) has_deviations
      (λ t. le_trans p.dual_approval_threshold low high t h)
      (λ t. le_trans p.executive_approval_threshold low high t h)

-- A granting AWARD approval that the first requirement of a chain accepts.
pub record IsAward (a : Approval) : Type 0 where
  pub positive : Approval.is_positive a ≡ true
  pub type : is_type a.approval_type ApprovalType.award ≡ true
  pub standard : is_eligible standard_award a ≡ true

abbrev dual_chain : List ApprovalRequirement
dual_chain = standard_award ∷ dual_award ∷ []

module _ (x y : Approval) (hx : IsAward x) (hy : IsAward y) where
  both_positive : keep Approval.is_positive (x ∷ y ∷ []) ≡ x ∷ y ∷ []
  both_positive = rw (hx.positive, hy.positive)

  -- The first requirement takes the first approval.
  first_taken :
      missing_from dual_chain (x ∷ y ∷ []) []
      ≡ missing_from (dual_award ∷ []) (x ∷ y ∷ []) (x.approval_id ∷ [])
  unfolding missing_from
  first_taken =
      let mx : matches standard_award [] x ≡ true =
        unfold matches is_consumed in ground (arith, hx.type, hx.standard) in
      let my : matches standard_award [] y ≡ true =
        unfold matches is_consumed in ground (arith, hy.type, hy.standard) in
      rw (mx, my)

  -- The second is met exactly if the other approval may give it.
  second_by_other :
      str_eq x.approval_id y.approval_id ≡ false
      → is_empty (missing_from (dual_award ∷ []) (x ∷ y ∷ []) (x.approval_id ∷ []))
        ≡ is_eligible dual_award y
  unfolding missing_from
  second_by_other fresh =
      let mx : matches dual_award (x.approval_id ∷ []) x ≡ false =
        unfold matches is_consumed in ground (arith, eq_refl x.approval_id) in
      let my : matches dual_award (x.approval_id ∷ []) y ≡ is_eligible dual_award y =
        unfold matches is_consumed in ground (arith, hy.type) in
      rw (mx, my) (elim (Bool-cases (is_eligible dual_award y)) [ inl e ↦ rw e | inr e ↦ rw e ])

  two_signers :
      str_eq x.approval_id y.approval_id ≡ false
      → award_chain_satisfied dual_chain (x ∷ y ∷ []) ≡ is_eligible dual_award y
  unfolding award_chain_satisfied
  two_signers fresh = rw (both_positive, first_taken) (second_by_other fresh)

module _ (p : ProcurementPolicy) (value : Decimal)
    (dual : Decimal.le p.dual_approval_threshold value ≡ true)
    (ordinary : Decimal.le p.executive_approval_threshold value ≡ false) where
  chain_is_dual : approval_chain_for_award p value false false ≡ dual_chain
  unfolding approval_chain_for_award
  chain_is_dual = rw (dual, ordinary)

  -- Take an award value between the two thresholds, single sourcing and deviations aside, and two
  -- AWARD approvals with different ids that the first requirement accepts, of which only `head`
  -- is by a role that may give the second signature. The chain is satisfied if `head` is listed
  -- last, and is not satisfied if it is listed first.
  pub order_matters :
      (head other : Approval)
      → IsAward head
      → IsAward other
      → is_eligible dual_award head ≡ true
      → is_eligible dual_award other ≡ false
      → str_eq head.approval_id other.approval_id ≡ false
      → str_eq other.approval_id head.approval_id ≡ false
      → let chain = approval_chain_for_award p value false false in
        (award_chain_satisfied chain (other ∷ head ∷ []) ≡ true)
        × (award_chain_satisfied chain (head ∷ other ∷ []) ≡ false)
  order_matters head other ha hb dh db fresh fresh' =
      rw chain_is_dual
        (two_signers other head hb ha fresh' ∙ dh, two_signers head other ha hb fresh ∙ db)

  -- At such a value one person whose role may give either signature satisfies the chain alone, by
  -- two approvals that differ in nothing but their id.
  pub one_person_signs_twice :
      (a : Approval) (second : String)
      → IsAward a
      → is_eligible dual_award a ≡ true
      → str_eq a.approval_id second ≡ false
      → award_chain_satisfied
          (approval_chain_for_award p value false false)
          (a ∷ record a { approval_id = second } ∷ [])
        ≡ true
  unfolding is_eligible Approval.is_positive
  one_person_signs_twice a second ha da fresh = rw chain_is_dual (
      two_signers a (record a { approval_id = second }) ha
        (record { positive = ha.positive; type = ha.type; standard = ha.standard }) fresh
      ∙ da)
