-- ===== src/OpenId.antt =====
-- The state/openidprovider package: role paths (path.go), roles in tokens (roles.go), the data of a
-- token (token.go), and the provider itself (struct.go, convert.go, request.go).
pub mod Chars
pub mod Path
pub mod Roles
pub mod Provider
pub mod Requesting
pub mod Token
pub mod Examples
