-- ===== src/Auth.antt =====
-- Sessions: the tokens of pkg/jwtauth, their revocation in internal/modules/iam/tokenstore, the
-- middleware of internal/platform/middleware/jwt.go and
-- internal/modules/iam/service/auth_service.go.
pub mod Tokens
pub mod Jwt
pub mod Middleware
pub mod Service
pub mod Revocation
pub mod Guard
pub mod Issue
pub mod Admit
