-- ===== src/Tools/Builtin.antt =====
-- internal/application/usecase/tool/builtin: the two tools that the program registers.
pub mod Calculator
pub mod Postfix
pub mod WebSearch
