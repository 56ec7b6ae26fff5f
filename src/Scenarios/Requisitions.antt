-- ===== src/Scenarios/Requisitions.antt =====
-- A requisition that validates, and one that does not.
use procurement_automation.Prelude.{◌≡◌, refl, false, true, none, some, List, [], ◌∷◌, All}
use procurement_automation.Prelude.Text.{strip, codes}
use procurement_automation.Errors.{ok}
use procurement_automation.Decimal
use procurement_automation.Decimal.{of_ℕ}
use procurement_automation.Money
use procurement_automation.Requisition.{
  PurchaseRequisition, PurchaseRequisitionLine, Complaint, validate, is_valid, is_blank,
  lacks_quantity, is_past, validate_line, is_pr_number, is_email, lines_from, number_complaints,
  line,
}
use procurement_automation.Requisition.Total.{total_from, total_estimated_value}
use procurement_automation.Requisition.Valid.{IsOrderable, is_valid-line}
use procurement_automation.Scenarios.{ascii}

abbrev first_line : PurchaseRequisitionLine
first_line = record {
  line_number = 10;
  material_code = "VLV-100";
  quantity = some (of_ℕ 4);
  uom = "EA";
  description = "";
  required_date = none;
  plant_code = "";
  storage_location = "";
  cost_center = "";
  gl_account = "";
  estimated_unit_price = some (of_ℕ 25);
  currency = "";
  specification_reference = "";
  manufacturer_part_number = "";
  preferred_vendor_id = "";
  free_text_only = false;
  notes = "";
  requested_material_group = "";
}

abbrev second_line : PurchaseRequisitionLine
second_line = record first_line {
  line_number = 20;
  quantity = some (of_ℕ 1);
  material_code = "PMP-7";
}

abbrev asked_for : List PurchaseRequisitionLine → PurchaseRequisition
asked_for lines = record {
  pr_number = "PR-2024/01";
  plant_code = "P100";
  requester = "rita";
  lines = lines;
  requester_email = "rita@plant.example.com";
  department = "";
  company_code = "";
  currency = "USD";
  priority = "high";
  justification = "";
  budget_code = "";
  created_at = 0;
  source_channel = "API";
  raw_reference = "";
}

abbrev requisition : PurchaseRequisition
requisition = asked_for (first_line ∷ second_line ∷ [])

accepted : is_valid ascii 5 requisition ≡ true
unfolding is_valid validate number_complaints is_blank strip is_pr_number is_email lines_from
    validate_line lacks_quantity Decimal.le is_past
accepted = refl

repeated :
    validate ascii 5 (asked_for (first_line ∷ record first_line { quantity = none } ∷ []))
    ≡ Complaint.line_duplicate 10 ∷ Complaint.quantity_not_positive 10 ∷ []
unfolding validate number_complaints is_blank strip is_pr_number is_email lines_from validate_line
    lacks_quantity Decimal.le is_past
repeated = refl

total :
    total_estimated_value ascii requisition (codes "USD")
    ≡ ok (record { amount = of_ℕ 125; currency = codes "USD" })
unfolding total_estimated_value total_from Money.zero_money Money.make Money.add Money.assert_same
    Decimal.add Decimal.mul
total = refl

addresses :
    (is_email (codes "a.b@c.de") ≡ true)
    × (is_email (codes "a@b@c.de") ≡ false)
    × (is_email (codes "a@.de") ≡ false)
    × (is_email (codes "a@b.d") ≡ false)
unfolding is_email
addresses = (refl, refl, refl, refl)

is_valid-line_example :
    IsOrderable 5 requisition
    × All (λ l. line requisition l.line_number ≡ ok l) (first_line ∷ second_line ∷ [])
is_valid-line_example = is_valid-line ascii 5 requisition accepted
