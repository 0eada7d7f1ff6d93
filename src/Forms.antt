-- ===== src/Forms.antt =====
-- The forms of the frontend: frontend/src/utils/validation.ts (`Validators`) and
-- frontend/src/hooks/useFormValidation.ts (`Hook`); the other modules hold the proofs.
pub mod Validators
pub mod Email
pub mod Password
pub mod Hook
pub mod Submission
pub mod Freshness
mod Tests
