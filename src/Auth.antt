-- ===== src/Auth.antt =====
-- internal/application/usecase/auth, internal/application/usecase/user and internal/pkg/jwt.
pub mod Jwt
pub mod Login
pub mod Refresh
pub mod Validate
pub mod CreateUser
pub mod Sound
pub mod Reading
pub mod Revoking
pub mod Granting
pub mod Opening
pub mod Registering
