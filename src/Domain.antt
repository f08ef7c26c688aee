-- ===== src/Domain.antt =====
-- The vocabulary of src/project_supervisor/domain.py.
pub mod States
pub mod Policy
pub use States.*
pub use Policy.*
