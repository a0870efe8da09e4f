-- ===== src/Workflow.antt =====
-- internal/infrastructure/eino: the agent workflow, its state, its nodes, the graph and the engine.
pub mod State
pub mod Clone
pub mod Env
pub mod Nodes
pub mod Graph
pub mod Engine
pub mod Walks
pub mod Acting
pub mod Safety
pub mod Calls
pub mod Counting
pub mod Progress
pub mod Resuming
