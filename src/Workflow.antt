-- ===== src/Workflow.antt =====
-- src/core: the context of a workflow, the states of its PACE part, and the state machines.
pub mod Context
pub mod Pace
pub mod ChangePin
pub mod Graph
pub mod Auth
pub mod SelfAuth
pub mod RemoteService
