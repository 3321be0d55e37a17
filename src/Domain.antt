-- ===== src/Domain.antt =====
-- internal/domain: the errors, the values and records, and the state machines of the business types.
mod Tests
pub mod Errors
pub mod Result
pub mod Values
pub mod Event
pub mod Rule
pub mod Identity
pub mod Workflow
pub mod Outbox
pub mod Execution
