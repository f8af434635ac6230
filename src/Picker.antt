-- ===== src/Picker.antt =====
-- backend/internal/picker: the choice of a platform key for a request.
pub mod Runtime
pub mod Capacity
pub mod Recount
pub mod Candidates
pub mod Selection
pub mod Eligible
pub mod Choices
pub mod State
pub mod Stable
pub mod Sessions
