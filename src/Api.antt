-- ===== src/Api.antt =====
-- tkdfrontend/src/api/competitions.js: the client of the competitions API.
pub mod Client
pub mod Values
pub mod Shapes
pub mod Roles
pub mod Endpoints
pub mod Guards
pub mod Fetching
pub mod RoleLaws
pub mod Candidates
pub mod Bodies
mod Examples
