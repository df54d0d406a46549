-- ===== src/Details.antt =====
-- CompetitionDetails.jsx: the page of a competition. Its children follow the page's parts: what
-- the competition is and who may take part, the registration window, the locked profile, the
-- forms and what their submission does, and the modals of the card and of the coach's code.
pub mod Eligibility
pub mod Window
pub mod Calendar
pub mod Locked
pub mod Form
pub mod Submit
pub mod Modals
mod Examples
