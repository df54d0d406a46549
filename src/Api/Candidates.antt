-- ===== src/Api/Candidates.antt =====
-- `tryFirst`: which candidates are asked, and whose answer is returned.
use tkd_chb.Base.{
  ◌≡◌, ◌↔◌, refl, sym, ◌∙◌, inl, inr, ℕ, suc, ◌≤◌, String, false, Option, none, some, List, [], ◌∷◌,
  ◌++◌, map, arith, Bool-cases, take, length, if◌then◌else◌,
}
use mathlib.Core.Path.{subst}
use mathlib.Core.List.{append_assoc, append-nil, map-append}
use tkd_chb.Base.Js.{Js}
use tkd_chb.Base.Exec.{throw, Exec, Attempt, Failure, Result, ok, err, Result-cases, handle}
use tkd_chb.Net.{Request, Server, World}
use tkd_chb.Api.Client.{safe_fetch, stops, try_from, try_first, attempt}

-- The result that `safeFetch` gives after the requests `sent`.
pub result_at : Server → List Request → Request → Result Js
result_at server sent req = (safe_fetch server req (record { storage = []; sent = sent })).0

-- `safeFetch` sends its request, once, and leaves the storage alone.
pub safe_fetch_lem :
    (server : Server) (req : Request) (w : World)
    → safe_fetch server req w
      ≡ (result_at server w.sent req, record w { sent = w.sent ++ req ∷ [] })
unfolding result_at safe_fetch
safe_fetch_lem server req w = ground arith

module _ (server : Server) (opts : Request) where
  abbrev pub at : String → Request
  at u = record opts { url = u }

  -- A candidate that the loop passes over: a failure with the status 404, or with none.
  pub record IsSkipped (sent : List Request) (u : String) (e : Failure) : Type 0 where
    pub failed : result_at server sent (at u) ≡ err e
    pub harmless : stops e.status ≡ false

  -- The first candidate that is not passed over answers with `v`; `sent` grows to the last index.
  pub data Answers (v : Js) : List Request → List String → List Request → Type 0 where
    hit :
        {sent after : List Request} {u : String} {us : List String}
        → result_at server sent (at u) ≡ ok v
        → after ≡ sent ++ at u ∷ []
        → Answers v sent (u ∷ us) after
    miss :
        {sent after : List Request} {u : String} {us : List String} {e : Failure}
        → IsSkipped sent u e
        → Answers v (sent ++ at u ∷ []) us after
        → Answers v sent (u ∷ us) after

  -- What is left of the loop after a failed candidate.
  abbrev continue_with : List String → List Attempt → String → Failure → Exec World Js
  continue_with us tried u e =
      if stops e.status
      then throw (record e { tried = tried ++ attempt u e ∷ [] })
      else try_from server opts us (some e) (tried ++ attempt u e ∷ [])

  abbrev asked : World → String → World
  asked w u = record w { sent = w.sent ++ at u ∷ [] }

  try_from-cons :
      (u : String) (us : List String) (last : Option Failure) (tried : List Attempt) (w : World)
      → try_from server opts (u ∷ us) last tried w
        ≡ handle (result_at server w.sent (at u)) (continue_with us tried u) (asked w u)
  unfolding try_from
  try_from-cons u us last tried w = rw (safe_fetch_lem server (at u) w) refl

  try_from-Answers :
      (urls : List String) (last : Option Failure) (tried : List Attempt) (w w' : World) (v : Js)
      → try_from server opts urls last tried w ≡ (ok v, w')
      → Answers v w.sent urls w'.sent × (w'.storage ≡ w.storage)
  try_from-Answers [] last tried w w' v e = absurd (unfold try_from in cc)
  try_from-Answers (u ∷ us) last tried w w' v e =
      let run = sym (try_from-cons u us last tried w) ∙ e in
      elim (Result-cases (result_at server w.sent (at u))) [
        | inl (a, good) ↦ let same = rw good at run in (hit (good ∙ cc) (cc), cc)
        | inr (f, bad) ↦ elim (Bool-cases (stops f.status)) [
          | inl stop ↦ absurd (let same = rw (bad, stop) at run in cc)
          | inr go ↦
              let (rest, kept) =
                try_from-Answers us (some f) (tried ++ attempt u f ∷ []) (asked w u) w' v
                  (rw (bad, go) at run) in
              (miss (record { failed = bad; harmless = go }) rest, kept)
        ]
      ]

  Answers-try_from :
      {v : Js} {urls : List String} {sent after : List Request} (last : Option Failure)
      (tried : List Attempt) (w : World)
      → w.sent ≡ sent
      → Answers v sent urls after
      → try_from server opts urls last tried w ≡ (ok v, record w { sent = after })
  Answers-try_from last tried w e (hit {u} {us} good done) =
      try_from-cons u us last tried w ∙ rw e (rw good (rw done refl))
  Answers-try_from last tried w e (miss {u} {us} {e = f} skip rest) =
      try_from-cons u us last tried w
      ∙ rw e (
          rw skip.failed (
            rw skip.harmless (
              Answers-try_from (some f) (tried ++ attempt u f ∷ []) (record w { sent = _ }) refl
                rest)))

  -- The requests that the loop has sent, and, where it failed, the candidates that it reports.
  abbrev urls_of : List Attempt → List String
  urls_of = map (λ a. a.url)

  abbrev pub Reports : Result Js → List String → Type 0
  Reports (ok v) us = Unit
  Reports (err e) us = urls_of e.tried ≡ us

  -- The run asked the first `count` candidates in their order, and nothing else.
  pub record Asks (urls tried : List String) (w : World) (out : Result Js × World) : Type 0 where
    pub count : ℕ
    pub within : count ≤ length urls
    pub world : out.1 ≡ record w { sent = w.sent ++ map at (take count urls) }
    pub reported : Reports out.0 (tried ++ take count urls)

  Reports-append :
      (r : Result Js) (tried : List Attempt) (u : String) (f : Failure) (us : List String)
      → Reports r (urls_of (tried ++ attempt u f ∷ []) ++ us)
      → Reports r (urls_of tried ++ u ∷ us)
  Reports-append r tried u f us h = subst (Reports r) (simp (map-append, append_assoc)) h

  Asks-one :
      (r : Result Js) (tried us : List String) (u : String) (w : World)
      → Reports r (tried ++ u ∷ [])
      → Asks (u ∷ us) tried w (r, asked w u)
  Asks-one r tried us u w h = record { count = 1; within = omega arith; world = refl; reported = h }

  Asks-more :
      (out : Result Js × World) (tried : List Attempt) (us : List String) (u : String) (f : Failure)
      (w : World)
      → Asks us (urls_of (tried ++ attempt u f ∷ [])) (asked w u) out
      → Asks (u ∷ us) (urls_of tried) w out
  Asks-more out tried us u f w h = record {
    count = suc h.count;
    within = omega (arith, h.within);
    world = h.world ∙ simp append_assoc;
    reported = Reports-append out.0 tried u f (take h.count us) h.reported;
  }

  try_from-Asks :
      (urls : List String) (last : Option Failure) (tried : List Attempt) (w : World)
      → Asks urls (urls_of tried) w (try_from server opts urls last tried w)
  unfolding try_from
  try_from-Asks [] last tried w = record {
    count = 0;
    within = omega arith;
    world = simp append-nil;
    reported = simp append-nil;
  }
  try_from-Asks (u ∷ us) last tried w =
      rw (try_from-cons u us last tried w) (elim (Result-cases (result_at server w.sent (at u))) [
        | inl (a, good) ↦ rw good (Asks-one (ok a) (urls_of tried) us u w tt)
        | inr (f, bad) ↦ elim (Bool-cases (stops f.status)) [
          | inl stop ↦ rw bad (rw stop (Asks-one _ (urls_of tried) us u w (simp map-append)))
          | inr go ↦ rw bad (
              rw go (
                Asks-more _ tried us u f w
                  (try_from-Asks us (some f) (tried ++ attempt u f ∷ []) (asked w u))))
        ]
      ])

-- `tryFirst` returns `v` exactly when `v` is the answer of the first candidate that neither fails
-- with the status 404 nor fails with no status, and no candidate before it answers; the requests
-- sent are those up to it, and the storage is kept.
pub try_first-ok_iff :
    (server : Server) (opts : Request) (urls : List String) (w w' : World) (v : Js)
    → (try_first server urls opts w ≡ (ok v, w'))
      ↔ (Answers server opts v w.sent urls w'.sent × (w'.storage ≡ w.storage))
unfolding try_first
try_first-ok_iff server opts urls w w' v = (
  try_from-Answers server opts urls none [] w w' v,
  λ (found, kept). Answers-try_from server opts none [] w refl found ∙ ground arith,
)

-- Whatever the server answers, `tryFirst` asks a first part of the candidates, in their order and
-- each once, changes nothing else, and reports in the error exactly the candidates that it asked.
pub try_first-Asks :
    (server : Server) (opts : Request) (urls : List String) (w : World)
    → Asks server opts urls [] w (try_first server urls opts w)
unfolding try_first
try_first-Asks server opts urls w = try_from-Asks server opts urls none [] w
