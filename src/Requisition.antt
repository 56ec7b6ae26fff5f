-- ===== src/Requisition.antt =====
-- Purchase requisitions as they are received (procureguard/domain/entities.py). The two regular
-- expressions are written out as tests on code points. A line number is a natural number, a
-- quantity may be missing, and fields that no rule reads are texts.
pub mod Valid
pub mod Total
use procurement_automation.Prelude.{
  ℕ, ◌+◌, ltb, leb, ◌==◌, Bool, true, false, not, ◌&&◌, ◌||◌, if◌then◌else◌, Option, none, some,
  List, [], ◌∷◌, ◌++◌, String, any, length, is_empty, str_eq,
}
use procurement_automation.Prelude.Text.{
  Codes, Unicode, codes, strip, upper, is_space, is_one_of, eq_codes,
}
use procurement_automation.Errors.{Error, Result, ok, err}
use procurement_automation.Decimal
use procurement_automation.Decimal.{Decimal, of_ℕ}
use procurement_automation.Money
use procurement_automation.Money.{Money, or_raise, ◌>>=◌}
use procurement_automation.Units.Normalize.{normalize_uom}

-- `PurchaseRequisitionLine`
pub record PurchaseRequisitionLine : Type 0 where
  pub line_number : ℕ
  pub material_code : String
  pub quantity : Option Decimal
  pub uom : String
  pub description : String
  pub required_date : Option ℕ
  pub plant_code : String
  pub storage_location : String
  pub cost_center : String
  pub gl_account : String
  pub estimated_unit_price : Option Decimal
  pub currency : String
  pub specification_reference : String
  pub manufacturer_part_number : String
  pub preferred_vendor_id : String
  pub free_text_only : Bool
  pub notes : String
  pub requested_material_group : String

-- `PurchaseRequisition`
pub record PurchaseRequisition : Type 0 where
  pub pr_number : String
  pub plant_code : String
  pub requester : String
  pub lines : List PurchaseRequisitionLine
  pub requester_email : String
  pub department : String
  pub company_code : String
  pub currency : String
  pub priority : String
  pub justification : String
  pub budget_code : String
  pub created_at : ℕ
  pub source_channel : String
  pub raw_reference : String

-- The messages of `validate`, with the line that they are about.
pub data Complaint : Type 0 where
  quantity_not_positive uom_missing material_missing description_short date_past : ℕ → Complaint
  number_missing number_malformed plant_missing requester_missing email_malformed : Complaint
  lines_missing : Complaint
  line_duplicate : ℕ → Complaint
  priority_unknown : Complaint

abbrev pub complain : Bool → Complaint → List Complaint
complain true c = c ∷ []
complain false c = []

-- `not (s or "").strip()`
unfoldable pub is_blank : String → Bool
is_blank s = is_empty (strip (codes s))

-- `quantity is None or quantity <= 0`
unfoldable pub lacks_quantity : Option Decimal → Bool
lacks_quantity none = true
lacks_quantity (some q) = Decimal.le q (of_ℕ 0)

-- A day in microseconds; the date is more than a day past.
abbrev pub day : ℕ
day = 86_400_000_000

unfoldable pub is_past : Option ℕ → ℕ → Bool
is_past none now = false
is_past (some date) now = ltb (date + day) now

-- `PurchaseRequisitionLine.validate`
unfoldable pub validate_line : ℕ → PurchaseRequisitionLine → List Complaint
validate_line now l =
    let n = l.line_number in
    complain (lacks_quantity l.quantity) (Complaint.quantity_not_positive n)
    ++ (complain (is_blank l.uom) (Complaint.uom_missing n)
        ++ (complain (not l.free_text_only && is_blank l.material_code)
              (Complaint.material_missing n)
            ++ (complain (l.free_text_only && ltb (length (strip (codes l.description))) 10)
                  (Complaint.description_short n)
                ++ complain (is_past l.required_date now) (Complaint.date_past n))))

-- `normalized_uom`
unfoldable pub normalized_uom : Unicode → PurchaseRequisitionLine → Result Codes
normalized_uom u l = normalize_uom u (codes l.uom)

unfoldable pub is_letter : ℕ → Bool
is_letter c = leb b'A' c && leb c b'Z' || leb b'a' c && leb c b'z'

abbrev is_number_sign : ℕ → Bool
is_number_sign c = is_letter c || leb b'0' c && leb c b'9' || c == b'_' || c == b'-' || c == b'/'

-- `re.fullmatch(r"[A-Za-z0-9_\-/]{3,40}", s)`
unfoldable pub is_pr_number : Codes → Bool
unfolding is_letter
is_pr_number s = leb 3 (length s) && leb (length s) 40 && not (any (λ c. not (is_number_sign c)) s)

-- The parts of a text before and after its first `@`, and around its last dot.
unfoldable pub local_part : Codes → Codes
local_part [] = []
local_part (c ∷ s) = let rest = local_part s in if c == b'@' then [] else c ∷ rest

unfoldable pub domain_part : Codes → Option Codes
domain_part [] = none
domain_part (c ∷ s) = let rest = domain_part s in if c == b'@' then some s else rest

abbrev pub dot_after : ℕ → Codes → Option (Codes × Codes) → Option (Codes × Codes)
dot_after c s (some (host, top)) = some (c ∷ host, top)
dot_after c s none = if c == b'.' then some ([], s) else none

unfoldable pub last_dot : Codes → Option (Codes × Codes)
last_dot [] = none
last_dot (c ∷ s) = dot_after c s (last_dot s)

abbrev no_sign_or_space : Codes → Bool
no_sign_or_space s = not (any (λ c. c == b'@' || is_space c) s)

abbrev is_host : Option (Codes × Codes) → Bool
is_host none = false
is_host (some (host, top)) =
    not (is_empty host) && leb 2 (length top) && not (any (λ c. not (is_letter c)) top)

abbrev is_address : Codes → Option Codes → Bool
is_address name none = false
is_address name (some domain) =
    not (is_empty name)
    && no_sign_or_space name
    && no_sign_or_space domain
    && is_host (last_dot domain)

-- `re.fullmatch(r"[^@\s]+@[^@\s]+\.[A-Za-z]{2,}", s)`; the last dot is the one that can match.
unfoldable pub is_email : Codes → Bool
unfolding local_part domain_part last_dot is_space is_letter
is_email s = is_address (local_part s) (domain_part s)

-- The loop over the lines, with the numbers seen so far.
unfoldable pub lines_from : ℕ → List ℕ → List PurchaseRequisitionLine → List Complaint
lines_from now seen [] = []
lines_from now seen (l ∷ rest) =
    complain (any (λ n. n == l.line_number) seen) (Complaint.line_duplicate l.line_number)
    ++ (validate_line now l ++ lines_from now (l.line_number ∷ seen) rest)

abbrev priorities : List Codes
priorities = codes "LOW" ∷ codes "NORMAL" ∷ codes "HIGH" ∷ codes "URGENT" ∷ codes "EMERGENCY" ∷ []

unfoldable pub number_complaints : String → List Complaint
number_complaints s =
    if is_blank s
    then Complaint.number_missing ∷ []
    else complain (not (is_pr_number (strip (codes s)))) Complaint.number_malformed

-- `PurchaseRequisition.validate`
unfoldable pub validate : Unicode → ℕ → PurchaseRequisition → List Complaint
unfolding upper is_one_of
validate u now pr =
    number_complaints pr.pr_number
    ++ (complain (is_blank pr.plant_code) Complaint.plant_missing
        ++ (complain (is_blank pr.requester) Complaint.requester_missing
            ++ (complain
                  (not (str_eq pr.requester_email "")
                    && not (is_email (strip (codes pr.requester_email))))
                  Complaint.email_malformed
                ++ (complain (is_empty pr.lines) Complaint.lines_missing
                    ++ (lines_from now [] pr.lines
                        ++ complain (not (is_one_of priorities (upper u (codes pr.priority))))
                            Complaint.priority_unknown)))))

-- `is_valid`
unfoldable pub is_valid : Unicode → ℕ → PurchaseRequisition → Bool
is_valid u now pr = is_empty (validate u now pr)

-- `line`
unfoldable pub line_in : List PurchaseRequisitionLine → ℕ → Result PurchaseRequisitionLine
line_in [] n = err Error.validation
line_in (l ∷ rest) n = if l.line_number == n then ok l else line_in rest n

unfoldable pub line : PurchaseRequisition → ℕ → Result PurchaseRequisitionLine
unfolding line_in
line pr n = line_in pr.lines n
