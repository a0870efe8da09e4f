-- ===== src/Tools.antt =====
-- internal/application/usecase/tool and pkg/toolspec: tools, their registry and their execution.
pub mod Spec
pub mod Registry
pub mod Execute
pub mod Permission
pub mod Builtin
pub mod Steady
