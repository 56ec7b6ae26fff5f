-- ===== src/Vocabulary.antt =====
-- The controlled vocabularies of procureguard/domain/enums.py, one data type for each `StrEnum`.
pub mod Case
pub mod Evidence
pub mod Technical
pub mod Sourcing
pub mod Access
