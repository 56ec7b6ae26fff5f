-- ===== src/Requisition/Valid.antt =====
-- What a requisition without complaints is like.
use procurement_automation.Prelude.{
  ℕ, ◌≤◌, ltb, ◌==◌, ==_iff, ◌≡◌, refl, inl, inr, Bool, true, false, not, ◌&&◌, Option, none, some,
  List, [], ◌∷◌, ◌++◌, String, any, length, is_empty, All, arith, Bool-cases,
}
use procurement_automation.Prelude.Text.{Unicode, codes, strip}
use procurement_automation.Errors.{ok}
use procurement_automation.Decimal
use procurement_automation.Decimal.{Decimal, of_ℕ}
use procurement_automation.Requisition.{
  PurchaseRequisition, PurchaseRequisitionLine, Complaint, complain, is_blank, lacks_quantity,
  is_past, validate_line, is_pr_number, lines_from, number_complaints, validate, is_valid, line_in,
  line,
}

empty-append : (xs ys : List Complaint) → is_empty (xs ++ ys) ≡ (is_empty xs && is_empty ys)
empty-append [] ys = refl
empty-append (x ∷ xs) ys = refl

empty-complain : (b : Bool) (c : Complaint) → is_empty (complain b c) ≡ not b
empty-complain true c = refl
empty-complain false c = refl

both : (a b : Bool) → (a && b) ≡ true → (a ≡ true) × (b ≡ true)
both a b h = ground arith

first_quiet :
    (xs ys : List Complaint)
    → is_empty (xs ++ ys) ≡ true
    → (is_empty xs ≡ true) × (is_empty ys ≡ true)
first_quiet xs ys h = both (is_empty xs) (is_empty ys) (rw (empty-append xs ys) at h)

quiet :
    (b : Bool) (c : Complaint) (ys : List Complaint)
    → is_empty (complain b c ++ ys) ≡ true
    → (b ≡ false) × (is_empty ys ≡ true)
quiet true c ys h = cc
quiet false c ys h = (refl, h)

quiet_last : (b : Bool) (c : Complaint) → is_empty (complain b c) ≡ true → b ≡ false
quiet_last true c h = cc
quiet_last false c h = refl

-- What names the material: a code, or a description where there is only text.
abbrev pub IsDescribed : Bool → PurchaseRequisitionLine → Type 0
IsDescribed true l = 10 ≤ length (strip (codes l.description))
IsDescribed false l = is_blank l.material_code ≡ false

-- A line that can be ordered.
pub record IsOrderableLine (now : ℕ) (l : PurchaseRequisitionLine) : Type 0 where
  pub quantity : (q : Decimal) × (l.quantity ≡ some q) × (Decimal.le q (of_ℕ 0) ≡ false)
  pub unit : is_blank l.uom ≡ false
  pub described : IsDescribed l.free_text_only l
  pub future : is_past l.required_date now ≡ false

-- No number occurs twice, and none of these occurs at all.
abbrev pub AreFresh : List ℕ → List PurchaseRequisitionLine → Type 0
AreFresh seen [] = Unit
AreFresh seen (l ∷ rest) =
    (any (λ n. n == l.line_number) seen ≡ false) × AreFresh (l.line_number ∷ seen) rest

pub record IsOrderable (now : ℕ) (pr : PurchaseRequisition) : Type 0 where
  pub numbered : is_pr_number (strip (codes pr.pr_number)) ≡ true
  pub plant : is_blank pr.plant_code ≡ false
  pub requested : is_blank pr.requester ≡ false
  pub some_line : is_empty pr.lines ≡ false
  pub distinct : AreFresh [] pr.lines
  pub lines : All (IsOrderableLine now) pr.lines

has_quantity :
    (o : Option Decimal)
    → lacks_quantity o ≡ false
    → (q : Decimal) × (o ≡ some q) × (Decimal.le q (of_ℕ 0) ≡ false)
unfolding lacks_quantity
has_quantity none h = cc
has_quantity (some q) h = (q, refl, h)

is_described :
    (free : Bool) (l : PurchaseRequisitionLine)
    → (not free && is_blank l.material_code) ≡ false
    → (free && ltb (length (strip (codes l.description))) 10) ≡ false
    → IsDescribed free l
is_described true l h k = ground arith
is_described false l h k = h

line-IsOrderableLine :
    (now : ℕ) (l : PurchaseRequisitionLine)
    → is_empty (validate_line now l) ≡ true
    → IsOrderableLine now l
unfolding validate_line
line-IsOrderableLine now l h =
    let (a, h1) = quiet _ _ _ h in
    let (b, h2) = quiet _ _ _ h1 in
    let (c, h3) = quiet _ _ _ h2 in
    let (d, h4) = quiet _ _ _ h3 in
    record {
      quantity = has_quantity l.quantity a;
      unit = b;
      described = is_described l.free_text_only l c d;
      future = quiet_last _ _ h4;
    }

lines-AreOrderable :
    (now : ℕ) (seen : List ℕ) (ls : List PurchaseRequisitionLine)
    → is_empty (lines_from now seen ls) ≡ true
    → AreFresh seen ls × All (IsOrderableLine now) ls
unfolding lines_from
lines-AreOrderable now seen [] h = (tt, tt)
lines-AreOrderable now seen (l ∷ rest) h =
    let (fresh, h1) = quiet _ _ _ h in
    let (here, h2) =
      first_quiet (validate_line now l) (lines_from now (l.line_number ∷ seen) rest) h1 in
    let (later, others) = lines-AreOrderable now (l.line_number ∷ seen) rest h2 in
    ((fresh, later), (line-IsOrderableLine now l here, others))

number-well_formed :
    (s : String) → is_empty (number_complaints s) ≡ true → is_pr_number (strip (codes s)) ≡ true
unfolding number_complaints
number-well_formed s h = elim (Bool-cases (is_blank s)) [
  | inl e ↦ cc (rw e at h)
  | inr e ↦
      let k =
        quiet_last (not (is_pr_number (strip (codes s)))) Complaint.number_malformed (rw e at h) in
      ground arith
]

-- A requisition that validates has a well-formed number, a plant, a requester and at least one
-- line, no two lines of one number, and only lines with a positive quantity, a unit, a material
-- code or a description of ten characters, and a date that is not more than a day past.
pub is_valid-IsOrderable :
    (u : Unicode) (now : ℕ) (pr : PurchaseRequisition)
    → is_valid u now pr ≡ true
    → IsOrderable now pr
unfolding is_valid validate
is_valid-IsOrderable u now pr h =
    let (number, h1) = first_quiet (number_complaints pr.pr_number) _ h in
    let (plant, h2) = quiet _ _ _ h1 in
    let (requester, h3) = quiet _ _ _ h2 in
    let (email, h4) = quiet _ _ _ h3 in
    let (none_missing, h5) = quiet _ _ _ h4 in
    let (lines, h6) = first_quiet (lines_from now [] pr.lines) _ h5 in
    let (distinct, orderable) = lines-AreOrderable now [] pr.lines lines in
    record {
      numbered = number-well_formed pr.pr_number number;
      plant = plant;
      requested = requester;
      some_line = none_missing;
      distinct = distinct;
      lines = orderable;
    }

-- A number that is seen is no number of a fresh line.
fresh-other :
    (n : ℕ) (seen : List ℕ) (ls : List PurchaseRequisitionLine)
    → any (λ m. m == n) seen ≡ true
    → AreFresh seen ls
    → All (λ l. (n == l.line_number) ≡ false) ls
fresh-other n seen [] h f = tt
fresh-other n seen (l ∷ rest) h f = (
  elim (Bool-cases (n == l.line_number)) [
    | inl e ↦ cc (rw ((==_iff n l.line_number).0 e) at h, f.0)
    | inr e ↦ e
  ],
  fresh-other n (l.line_number ∷ seen) rest (ground (arith, h)) f.1,
)

-- The line is what its number finds.
abbrev pub IsFoundIn : List PurchaseRequisitionLine → PurchaseRequisitionLine → Type 0
IsFoundIn ls l = line_in ls l.line_number ≡ ok l

found_later :
    (l : PurchaseRequisitionLine) (rest ls : List PurchaseRequisitionLine)
    → All (λ k. (l.line_number == k.line_number) ≡ false) ls
    → All (IsFoundIn rest) ls
    → All (IsFoundIn (l ∷ rest)) ls
unfolding line_in
found_later l rest [] other found = tt
found_later l rest (k ∷ ls) other found =
    (rw other.0 found.0, found_later l rest ls other.1 found.1)

fresh-IsFoundIn :
    (seen : List ℕ) (ls : List PurchaseRequisitionLine) → AreFresh seen ls → All (IsFoundIn ls) ls
unfolding line_in
fresh-IsFoundIn seen [] f = tt
fresh-IsFoundIn seen (l ∷ rest) f =
    let same : (l.line_number == l.line_number) ≡ true =
      (==_iff l.line_number l.line_number).1 refl in
    (
      rw same refl,
      found_later l rest rest
          (fresh-other l.line_number (l.line_number ∷ seen) rest (ground (arith, same)) f.1)
          (fresh-IsFoundIn (l.line_number ∷ seen) rest f.1),
    )

-- In a requisition that validates, `line` finds each of its lines by its number.
pub line-is_valid :
    (u : Unicode) (now : ℕ) (pr : PurchaseRequisition)
    → is_valid u now pr ≡ true
    → All (λ l. line pr l.line_number ≡ ok l) pr.lines
unfolding line
line-is_valid u now pr h = fresh-IsFoundIn [] pr.lines (is_valid-IsOrderable u now pr h).distinct

-- A requisition that validates, on any date, has a well-formed number, a plant, a requester, distinct
-- line numbers and only lines that can be ordered, and `line` finds each of its lines by its number.
pub is_valid-line :
    (u : Unicode) (now : ℕ) (pr : PurchaseRequisition)
    → is_valid u now pr ≡ true
    → IsOrderable now pr × All (λ l. line pr l.line_number ≡ ok l) pr.lines
is_valid-line u now pr h = (is_valid-IsOrderable u now pr h, line-is_valid u now pr h)
