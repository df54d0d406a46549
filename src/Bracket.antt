-- ===== src/Bracket.antt =====
-- tkdfrontend/src/components/Login/competitions/CompetitionBracket.jsx: the card of a draw.
pub mod Board
pub mod Match
pub mod Fill
pub mod Byes
pub mod Single
pub mod Size
mod Examples
