-- ===== src/Policy/Award/Signed.antt =====
-- What a satisfied chain means: the signatures that it consumed.
use procurement_automation.Prelude.{
  ℕ, ◌≤◌, ltb, ◌≡◌, refl, inl, inr, true, false, List, [], ◌∷◌, ◌++◌, String, keep, take, length,
  is_empty, All, All-take, Any, arith, Bool-cases, zero, suc,
}
use procurement_automation.Approval
use procurement_automation.Approval.{Approval}
use procurement_automation.Policy.Gate.{is_type}
use procurement_automation.Policy.Award.{
  ApprovalRequirement, is_eligible, is_consumed, matches, ids, missing_from, award_chain_satisfied,
}

-- A recorded approval that grants, of the right type, by someone in an eligible role, and with an
-- id that no earlier requirement has used.
pub record IsSignature (approvals : List Approval) (r : ApprovalRequirement) (used : List String)
    (a : Approval) : Type 0 where
  pub recorded : Any (λ b. b ≡ a) approvals
  pub positive : Approval.is_positive a ≡ true
  pub type : is_type a.approval_type r.approval_type ≡ true
  pub role : is_eligible r a ≡ true
  pub unused : is_consumed used a ≡ false

-- Each requirement in turn has as many signatures as it asks for, all unused so far.
abbrev pub AreSigned : List Approval → List String → List ApprovalRequirement → Type 0
AreSigned approvals used [] = Unit
AreSigned approvals used (r ∷ chain) =
    (signatures : List Approval) × (length signatures ≡ r.minimum_approvers)
    × All (IsSignature approvals r used) signatures
    × AreSigned approvals (ids signatures ++ used) chain

length-take-enough : (n : ℕ) (xs : List Approval) → n ≤ length xs → length (take n xs) ≡ n
length-take-enough zero xs h = refl
length-take-enough (suc n) [] h = absurd (omega arith)
length-take-enough (suc n) (x ∷ xs) h = omega (arith, length-take-enough n xs)

module _ (approvals : List Approval) where
  abbrev IsGranted : Approval → Type 0
  IsGranted a = Any (λ b. b ≡ a) approvals × (Approval.is_positive a ≡ true)

  keep-IsGranted :
      (xs : List Approval)
      → ((a : Approval) → Any (λ b. b ≡ a) xs → Any (λ b. b ≡ a) approvals)
      → All IsGranted (keep Approval.is_positive xs)
  keep-IsGranted [] within = tt
  keep-IsGranted (x ∷ xs) within =
      let rest = keep-IsGranted xs (λ a m. within a (inr m)) in
      elim (Bool-cases (Approval.is_positive x)) [
        | inl e ↦ rw e ((within x (inl refl), e), rest)
        | inr e ↦ rw e rest
      ]

  keep-IsSignature :
      (r : ApprovalRequirement) (used : List String) (ps : List Approval)
      → All IsGranted ps
      → All (IsSignature approvals r used) (keep (matches r used) ps)
  unfolding matches
  keep-IsSignature r used [] g = tt
  keep-IsSignature r used (x ∷ ps) (here, later) =
      let rest = keep-IsSignature r used ps later in
      elim (Bool-cases (matches r used x)) [
        | inl e ↦ rw e (
          record {
            recorded = here.0;
            positive = here.1;
            type = ground arith;
            role = ground arith;
            unused = ground arith;
          },
          rest,
        )
        | inr e ↦ rw e rest
      ]

  missing_from-AreSigned :
      (chain : List ApprovalRequirement) (ps : List Approval) (used : List String)
      → All IsGranted ps
      → is_empty (missing_from chain ps used) ≡ true
      → AreSigned approvals used chain
  unfolding missing_from
  missing_from-AreSigned [] ps used g h = tt
  missing_from-AreSigned (r ∷ chain) ps used g h =
      let found = keep (matches r used) ps in
      elim (Bool-cases (ltb (length found) r.minimum_approvers)) [
        | inl short ↦ cc (rw short at h)
        | inr enough ↦
            let signed = take r.minimum_approvers found in
            (
              signed,
              length-take-enough r.minimum_approvers found (ground arith),
              All-take (IsSignature approvals r used) r.minimum_approvers found
                  (keep-IsSignature r used ps g),
              missing_from-AreSigned chain ps (ids signed ++ used) g (rw enough at h),
            )
      ]

-- A chain that counts as satisfied is signed: each requirement in turn has as many recorded
-- approvals as it asks for, each of them granting, of its type and by someone in an eligible
-- role, and none of them with an id that an earlier requirement has used.
pub satisfied-AreSigned :
    (chain : List ApprovalRequirement) (approvals : List Approval)
    → award_chain_satisfied chain approvals ≡ true
    → AreSigned approvals [] chain
unfolding award_chain_satisfied
satisfied-AreSigned chain approvals h =
    missing_from-AreSigned approvals chain (keep Approval.is_positive approvals) []
      (keep-IsGranted approvals approvals (λ a m. m)) h
