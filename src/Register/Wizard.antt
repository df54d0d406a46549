-- ===== src/Register/Wizard.antt =====
-- The way through a form of several steps. `onNext` of a step and `onSubmit` of the last one go on only
-- where the step's own validation passes; after the last step the form is sent. A step calls
-- `onDataChange` with its own fields only.
use tkd_chb.Base.{◌≡◌, refl, ◌∙◌, String, Bool, true, not, List, [], ◌∷◌, All, every}
use tkd_chb.Register.{Entry, Form, field_of, handle_data_change, has}
use tkd_chb.Register.Laws.{Reads, Within, Reads-Ignores, Ignores-handle_data_change}

pub record FormStep : Type 0 where
  pub fields : List String
  pub reads : List String
  pub passes : (String → Entry) → Bool
  pub only : Reads passes reads

abbrev pub Steps : Type 0
Steps = List FormStep

-- The steps passed, the last one first, and the steps ahead, the shown one first.
pub data Reaches (steps : Steps) (start : Form) : Steps → Steps → Form → Type 0 where
  begin : Reaches steps start [] steps start
  changed :
      {seen rest : Steps} {s : FormStep} {d : Form} (new : Form)
      → Within s.fields new
      → Reaches steps start seen (s ∷ rest) d
      → Reaches steps start seen (s ∷ rest) (handle_data_change new d)
  forward :
      {seen rest : Steps} {s : FormStep} {d : Form}
      → s.passes (field_of d) ≡ true
      → Reaches steps start seen (s ∷ rest) d
      → Reaches steps start (s ∷ seen) rest d
  back :
      {seen rest : Steps} {p s : FormStep} {d : Form}
      → Reaches steps start (p ∷ seen) (s ∷ rest) d
      → Reaches steps start seen (p ∷ s ∷ rest) d

-- The step `s` changes nothing that the step `p` reads.
abbrev pub Apart : FormStep → FormStep → Type 0
Apart p s = every (λ k. not (has k p.reads)) s.fields ≡ true

-- No later step changes what an earlier one reads.
abbrev pub InOrder : Steps → Type 0
InOrder [] = Unit
InOrder (p ∷ ss) = All (Apart p) ss × InOrder ss

abbrev InReverse : Steps → Type 0
InReverse [] = Unit
InReverse (s ∷ ps) = All (λ p. Apart p s) ps × InReverse ps

abbrev Between : Steps → Steps → Type 0
Between seen rest = All (λ p. All (Apart p) rest) seen

Between-cons :
    (seen rest : Steps) (s : FormStep)
    → All (λ p. Apart p s) seen
    → Between seen rest
    → Between seen (s ∷ rest)
Between-cons [] rest s h b = tt
Between-cons (p ∷ seen) rest s (h, hs) (b, bs) = ((h, b), Between-cons seen rest s hs bs)

Between-heads :
    (seen rest : Steps) (s : FormStep) → Between seen (s ∷ rest) → All (λ p. Apart p s) seen
Between-heads [] rest s b = tt
Between-heads (p ∷ seen) rest s ((h, _), bs) = (h, Between-heads seen rest s bs)

Between-tails : (seen rest : Steps) (s : FormStep) → Between seen (s ∷ rest) → Between seen rest
Between-tails [] rest s b = tt
Between-tails (p ∷ seen) rest s ((_, b), bs) = (b, Between-tails seen rest s bs)

pub record IsApart (seen rest : Steps) : Type 0 where
  pub behind : InReverse seen
  pub across : Between seen rest
  pub ahead : InOrder rest

Reaches-IsApart :
    {steps : Steps} {start : Form} {seen rest : Steps} {d : Form}
    → InOrder steps
    → Reaches steps start seen rest d
    → IsApart seen rest
Reaches-IsApart h begin = record { behind = tt; across = tt; ahead = h }
Reaches-IsApart h (changed new within run) = Reaches-IsApart h run
Reaches-IsApart h (forward {seen = seen} {rest = rest} {s = s} passed run) =
    let i = Reaches-IsApart h run in
    record {
      behind = (Between-heads seen rest s i.across, i.behind);
      across = (i.ahead.0, Between-tails seen rest s i.across);
      ahead = i.ahead.1;
    }
Reaches-IsApart h (back {seen = seen} {rest = rest} {p = p} {s = s} run) =
    let i = Reaches-IsApart h run in
    record {
      behind = i.behind.1;
      across = Between-cons seen (s ∷ rest) p i.behind.0 i.across.1;
      ahead = (i.across.0, i.ahead);
    }

abbrev pub Passed : Form → Steps → Type 0
Passed d seen = All (λ p. p.passes (field_of d) ≡ true) seen

changed-Passed :
    (s : FormStep) (new d : Form) (seen : Steps)
    → Within s.fields new
    → All (λ p. Apart p s) seen
    → Passed d seen
    → Passed (handle_data_change new d) seen
changed-Passed s new d [] within apart passed = tt
changed-Passed s new d (p ∷ seen) within (here, later) (first, others) = (
  Ignores-handle_data_change p.passes s.fields new d
        (Reads-Ignores p.passes p.reads s.fields p.only here) within
      ∙ first,
  changed-Passed s new d seen within later others,
)

-- The data passes the validation of every step that has been passed, also after ways back and changes,
-- where no step changes what an earlier one reads.
pub Reaches-Passed :
    {steps : Steps} {start : Form} {seen rest : Steps} {d : Form}
    → InOrder steps
    → Reaches steps start seen rest d
    → Passed d seen
Reaches-Passed h begin = tt
Reaches-Passed h (changed {seen = seen} {rest = rest} {s = s} {d = d} new within run) =
    changed-Passed s new d seen within (Between-heads seen rest s (Reaches-IsApart h run).across)
      (Reaches-Passed h run)
Reaches-Passed h (forward passed run) = (passed, Reaches-Passed h run)
Reaches-Passed h (back run) = (Reaches-Passed h run).1

abbrev onto : Steps → Steps → Steps
onto [] rest = rest
onto (p ∷ seen) rest = onto seen (p ∷ rest)

onto-Passed :
    (d : Form) (seen rest : Steps) → Passed d seen → Passed d rest → Passed d (onto seen rest)
onto-Passed d [] rest h k = k
onto-Passed d (p ∷ seen) rest (first, h) k = onto-Passed d seen (p ∷ rest) h (first, k)

Reaches-onto :
    {steps : Steps} {start : Form} {seen rest : Steps} {d : Form}
    → Reaches steps start seen rest d
    → onto seen rest ≡ steps
Reaches-onto begin = refl
Reaches-onto (changed new within run) = Reaches-onto run
Reaches-onto (forward passed run) = Reaches-onto run
Reaches-onto (back run) = Reaches-onto run

-- A form that is sent passes the validation of all its steps.
pub Reaches-sent :
    {steps : Steps} {start : Form} {seen : Steps} {d : Form}
    → InOrder steps
    → Reaches steps start seen [] d
    → Passed d steps
Reaches-sent {seen = seen} {d = d} h run =
    rw (← Reaches-onto run) (onto-Passed d seen [] (Reaches-Passed h run) tt)
