-- ===== src/Lib.antt =====
-- The web front end of a taekwondo federation (tkdfrontend/src): accounts and sessions, competitions,
-- registrations and tournament brackets, over a server that is a parameter here.
--
-- The modules, and the files they model (paths below tkdfrontend/src):
--   Base: texts and digits as the forms clean them (Text, Digits), the values of JavaScript as JSON
--     carries them (Js), asynchronous calls that may throw (Exec), integers (Int) and stable sorting
--     (Sort).
--   Storage, Net: localStorage, and the requests that a run sends. A server is a function of the
--     requests sent before and of the request, and may refuse or answer anything.
--   Session: the three token readers (api/competitions.js, api/profile.js, PrivateRoute.jsx), the
--     guards, and the logout of Dashboard.jsx.
--   Login: LoginModal.jsx. Forgot: ForgotPasswordModal.jsx, with its events as a step relation.
--   Api: api/competitions.js. Client has safeFetch and tryFirst, Values has compact, Roles the tests
--     that show the registration buttons, Endpoints the calls themselves.
--   Listing: MatchesSection.js, with the loading and the order in Order, and
--     components/common/PaginatedList.jsx.
--   Details: CompetitionDetails.jsx. Eligibility, Window, Locked and Form have what the page computes,
--     Submit and Modals its handlers; the calendar of the browser (Clock) and the date picker (Picker)
--     are parameters. Calendar has the conversion to Jalali dates, and Shown its text.
--   Students: CoachRegisterStudents.jsx, the table, and in Ids the search for the ids of a reply.
--   Results: CompetitionResults.jsx. Cards: EnrollmentCardsBulk.jsx.
--   Flow: CoachAgreementFlow.jsx, with its events as a step relation.
--   Axios: axios as a parameter. Panel: ChangeCoachClubs.jsx (Clubs), ClubCoachesManagement.jsx
--     (Coaches) and CoachRequests.jsx (Requests).
--   Seminar: SeminarDetail.jsx; Profile has the texts of the person.
--   Register: components/Register and pages/Register*Page.jsx. Person and Place are the first steps of a
--     player and of a coach, Player and Coach their further steps, Club the steps of a club, Phone
--     RegisterModal.jsx with its events as a step relation, Submit what the pages share when they send.
--     Wizard is the way through the steps: a form is changed by the shown step only, goes on where that
--     step passes, and may go back.
--   Profile: PersonalInfoForm.jsx; Load has the loading, Submit what is sent of an edit. Tables: the tables
--     of the panel with their filters, and SeminarsSection.jsx.
--   Lightbox: pages/AdvancedLightbox.jsx, with the events of the viewer as a step relation.
--   Bracket: CompetitionBracket.jsx, the effect that writes a draw onto the card. Board has the inputs
--     and the columns, Match the matches, Byes, Single and Fill the steps of the effect.
--
-- The page components call Api and Session, which read Storage; a handler takes the state of its
-- component and the world, and gives both back. A request and its reply are one step of a handler,
-- so what is typed or clicked between the two is left out, and loading shows in the end state only.
-- Register.Phone is the exception: there a handler gives the request, and each reply is an event of its
-- own, which comes at any time after it.
--
-- Bounds: the loop for the number of rounds runs on a 32-bit shift and has fuel for its 31 rounds; the
-- loop for a lone player has fuel for six rounds, one more than the card has columns. Numbers in JSON
-- are natural, as the ids, sizes, fees and statuses are.
--
-- Not modelled: rendering, styles, focus and scrolling; printing and snapshots of the card; debug
-- output; a component that is taken off the page while a request runs; the Django back end.
pub mod Base
pub mod Storage
pub mod Net
pub mod Axios
pub mod Session
pub mod Api
pub mod Bracket
pub mod Details
pub mod Login
pub mod Listing
pub mod Forgot
pub mod Students
pub mod Cards
pub mod Lightbox
pub mod Flow
pub mod Seminar
pub mod Panel
pub mod Results
pub mod Register
pub mod Profile
pub mod Tables
