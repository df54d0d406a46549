-- ===== src/Listing.antt =====
-- The list of competitions: its clicks, MatchesSection.js, and its pages, PaginatedList.jsx.
pub mod Pages
pub mod Matches
pub mod Order
mod Examples
