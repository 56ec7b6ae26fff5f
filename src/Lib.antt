-- ===== src/Lib.antt =====
-- Verification of the procurement domain (procureguard/domain): the deterministic rules that say
-- what a sourcing agent may do, and the arithmetic of money and units that its comparisons rest
-- on; of the order in which bids are ranked (procureguard/application/bid_ranking.py); of sealed
-- quotations (procureguard/application/quotation_ingestion.py, procureguard/security/crypto.py);
-- of the routes by which people release RFQs, approve the technical evaluation and the award and
-- release orders (procureguard/api/routes/approvals.py); and of the durable workflow that takes a
-- case from one to the other (procureguard/workflows/procurement.py).
--
-- The parts and how they interact. A sourcing case (procureguard/domain/entities.py) walks a fixed
-- graph of states; its methods are the only writers of its fields. The policy
-- (procureguard/domain/policies.py) reads cases, approvals and assessments and answers whether an
-- action may be taken; `apply_technical_approval` is the one rule that also calls the case's
-- methods. A requirement compares a supplier's offer, converting units
-- (procureguard/domain/units.py) where they differ; its assessments decide the qualification. A
-- purchase requisition is checked before a case is opened for it. Money
-- (procureguard/domain/money.py) keeps amounts in one currency and converts at dated rates. An
-- offer that arrives before the technical approval is encrypted into an envelope beside its
-- technical lines; the route of the technical approval records the approval, lets the policy
-- unlock the case, saves it and opens every envelope. The route of the award asks the policy
-- whether the recorded approvals sign the chain for the value of the award before the case takes
-- it. The workflow calls the services in their order and waits for the signals that people send.
-- Enumerations and errors are those of procureguard/domain/enums.py and
-- procureguard/domain/errors.py.
--
-- Files. Each module is named for the part and opens with the file that it is about.
--   Prelude       Boolean tests, lists, Python's text operations on code points, dicts
--   Int, Decimal  integers, and `decimal.Decimal` under its default context
--   Errors        errors.py: exceptions as values, and state with exceptions (`Action`)
--   Vocabulary    enums.py, one child per group of enumerations
--   Case          entities.py: `SourcingCase`. `transition s actor reason now c` is the method on the
--                 case `c`, and gives the result or exception and the case after it. Case.Edges has
--                 the graph as a relation, Case.Methods and Case.Invariant the methods one by one, and
--                 Case.Trace runs of calls: `run calls c`, where a refused call is part of the run
--   Approval      entities.py: `Approval`
--   Requirement   entities.py: `Requirement.evaluate` and its helpers, `ComplianceAssessment`
--   Requisition   entities.py: `PurchaseRequisition` and its lines; Requisition.Total the
--                 estimate, Requisition.Valid the proofs
--   Policy        policies.py: Cases, Gate, Award, Qualify, Price and Access have the rules;
--                 Agreement, Technical, Award.Signed, Award.Order, Qualify.Complete and Access.Duties
--                 the proofs
--   Money         money.py: amounts, Fx the rate table, Terms the payment terms
--   Units         units.py: Table and Aliases the data, Normalize and Converter the functions;
--                 Normalize.Stable, Stored, Ends, Safety and Termination the proofs
--   Ranking       procureguard/application/bid_ranking.py: the order of the candidates in
--                 `BidRankingService.rank`; Ranking.Order and Ranking.Sorted the proofs
--   Crypto        procureguard/security/crypto.py: the key stream, and Envelope the ciphers; Xor,
--                 Expand and RoundTrip the proofs
--   Quotation     procureguard/application/quotation_ingestion.py, ingestion/parsers/quotation_parser.py
--                 and infrastructure/db: the rows, Seal what is written sealed or in clear, Payload the
--                 envelope, Ingest `ingest_text`, Unseal `unseal_case`; RoundTrip, Opened, Guard, Leak
--                 and Verdict the proofs
--   Api           procureguard/api/routes/approvals.py, security/auth.py and infrastructure/db: the
--                 caller, Store the saving of cases and approvals, Technical, Award, Release and Order
--                 the routes; Recorded, Gates, Signed, Signalled, Released, Lock and Composed (with the workflow)
--                 the proofs
--   Workflow      procureguard/workflows/procurement.py: `run` as steps from await to await, with
--                 Collect and Negotiate the sub-phases and Step the signals and events; Gates, Runs and
--                 Loops the proofs
--   Scenarios     tests by evaluation, and each theorem at a concrete input
--
-- Correspondence. A method that changes an object is a function from the object before to a result
-- and the object after, so what was written before an exception stays written. A set of which only
-- membership or size is read is a list. A time is a natural number of microseconds, a date a day
-- number; the clock, and the date of today, are arguments. Texts that are computed on are lists of
-- code points; what the Unicode database says beyond ASCII is a parameter (`Unicode`). Reasons and
-- rationales are data with what their texts interpolate. Calls of `Decimal(str(x))` are the
-- identity on decimals. A quotient keeps trailing zeros that Python strips, which does not change
-- its value. Exponent limits, NaN and infinities of `decimal` are left out; DivisionByZero and
-- InvalidOperation are `none`, or `procure_guard` in a method of Money, where no exception of the
-- program is raised.
--
-- Libraries. HMAC-SHA256, base64, `json` and the bytes of an encryption context are parameters
-- (`Primitives`, `Codec`); what is relied on is that a digest has 32 bytes and that base64 and
-- JSON give back what they took (`AreLawful`, `IsFaithful`). The parsed offer, ids, nonces and the
-- clock are arguments. An event of the workflow is a signal, an activity's answer or exception, or
-- the end of a wait's time; whether `wait_condition` then raises is a parameter (`raises`), and so
-- is whether a signal that a route sends reaches the workflow (`delivered`). A table is the list
-- of its rows, those of one case and one tenant in the routes; a request that raises is rolled
-- back, so a route gives the rows afterwards or an exception, where `builtin` stands for the
-- exceptions of Python and its libraries.
--
-- Fuel. The key stream's recursion is on the number of values that its one-byte counter has left;
-- at 0 the code raises as well. `factor` and `_bridge` call each other, so `factor` takes the
-- depth of calls that is allowed and ends in `endless` beyond it, which is Python's
-- RecursionError. `digits` runs on the number itself as fuel. Every other recursion is structural.
--
-- Not modelled. `Money.parse`, `PaymentTerms.parse` (regular expressions), `describe` and other
-- printing, the audit log, claims and invitations that routes and services also write, and the
-- other services, parsers, the workflow's activities, the other routes, SQL, language models and
-- configuration, which call these rules or stand around them. `**` of decimals in `present_value`
-- is an argument, and the unit converter is one in `evaluate`, where only its success or failure
-- counts.
pub mod Prelude
pub mod Int
pub mod Errors
pub mod Vocabulary
pub mod Decimal
pub mod Crypto
pub mod Case
pub mod Requirement
pub mod Approval
pub mod Policy
pub mod Money
pub mod Units
pub mod Requisition
pub mod Quotation
pub mod Ranking
pub mod Api
pub mod Workflow
pub mod Scenarios
