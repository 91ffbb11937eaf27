-- ===== src/SummaryPanel/Kept.antt =====
-- The panel of a summary shows the summary of its range.
use task_man.Prelude.{
  ℕ, suc, ◌==◌, ◌≤◌, ◌≡◌, refl, sym, ap, ◌∙◌, subst, arith, List, [], ◌∷◌, All, All-weaken, ==_iff,
  inl, inr, ◌⊎◌, Bool, true, false, ◌||◌, Option, none, some, if◌then◌else◌, Bool-cases,
}
use task_man.Text.{Text, text_eq, is_empty}
use task_man.Api.Types.{SummaryResponse}
use task_man.Api.Requests.{Request, summary}
use task_man.SummaryPanel.{
  SummaryPanel, range_error, fetch_summary, opened_summary, from_typed, to_typed, summary_answered,
  summary_refused,
}

pub data Event : Type 0 where
  type_from type_to : Text → Event
  answer : ℕ → SummaryResponse → Event
  refusal : ℕ → Text → Event
  close : Event

abbrev pub step : Event → SummaryPanel → SummaryPanel
step (type_from v) s = from_typed v s
step (type_to v) s = to_typed v s
step (answer k d) s = summary_answered k d s
step (refusal k e) s = summary_refused k e s
step close s = record s { closing = true }

-- This request was made by this run.
abbrev pub IsSent : ℕ → Request → List (ℕ × Request) → Type 0
IsSent k r [] = ⊥
IsSent k r ((n, q) ∷ sent) = ((k ≡ n) × (r ≡ q)) ⊎ IsSent k r sent

-- The server answers a request that was made, of any run, with the summary of the range asked for.
abbrev pub IsOffered : Event → SummaryPanel → Type 0
IsOffered (answer k d) s = IsSent k (summary d.from d.to s.team_id s.assignee_id) s.sent
IsOffered _ s = Unit

pub data Reach : SummaryPanel → Type 0 where
  start : (team who : Option Text) (from to : Text) → Reach (opened_summary team who from to)
  next : {s : SummaryPanel} → Reach s → (e : Event) → IsOffered e s → Reach (step e s)

abbrev pub IsOf : SummaryPanel → Option SummaryResponse → Type 0
IsOf s none = Unit
IsOf s (some d) =
    (d.from ≡ s.from)
    × (d.to ≡ s.to)
    × ((range_error s || (is_empty s.from || is_empty s.to)) ≡ false)

-- What is shown is the summary of the range that is shown, unless one is being loaded.
abbrev pub IsHonest : SummaryPanel → Type 0
IsHonest s = (s.loading ≡ true) ⊎ IsOf s s.summary_data

-- The requests made so far are of no later run, and one of this run is for a whole range, the one in
-- the inputs.
abbrev IsOld : ℕ → ℕ × Request → Type 0
IsOld n p = p.0 ≤ n

abbrev IsOwn : SummaryPanel → ℕ × Request → Type 0
IsOwn s p =
    (p.0 ≡ s.fetch)
    → (p.1 ≡ summary s.from s.to s.team_id s.assignee_id)
      × ((range_error s || (is_empty s.from || is_empty s.to)) ≡ false)

record IsKept (s : SummaryPanel) : Type 0 where
  old : All (IsOld s.fetch) s.sent
  own : All (IsOwn s) s.sent
  honest : IsHonest s

later-IsOld : (n : ℕ) (l : List (ℕ × Request)) → All (IsOld n) l → All (IsOld (suc n)) l
later-IsOld n l h = All-weaken (IsOld n) (IsOld (suc n)) (λ p q. omega (arith, q)) l h

earlier-IsOwn :
    (n : ℕ) (s : SummaryPanel) (l : List (ℕ × Request))
    → s.fetch ≡ suc n
    → All (IsOld n) l
    → All (IsOwn s) l
earlier-IsOwn n s l e h = All-weaken (IsOld n) (IsOwn s) (λ p q k. absurd (later p q k)) l h
  where
    later : (p : ℕ × Request) → p.0 ≤ n → p.0 ≡ s.fetch → ⊥
    later p q k = omega (arith, q, k, e)

fetch-IsKept : (s : SummaryPanel) → All (IsOld s.fetch) s.sent → IsKept (fetch_summary s)
unfolding fetch_summary
fetch-IsKept s h = elim (Bool-cases (range_error s || (is_empty s.from || is_empty s.to))) [
  | inl e ↦ rw e (record {
    old = later-IsOld s.fetch s.sent h;
    own = earlier-IsOwn s.fetch (record s { fetch = suc s.fetch }) s.sent refl h;
    honest = inr tt;
  })
  | inr e ↦ rw e (record {
    old = (omega arith, later-IsOld s.fetch s.sent h);
    own = (λ k. (refl, e), earlier-IsOwn s.fetch (record s { fetch = suc s.fetch }) s.sent refl h);
    honest = inl refl;
  })
]

unless-IsKept : (b : Bool) (s t : SummaryPanel) → IsKept s → IsKept t → IsKept (if b then s else t)
unless-IsKept true s t h k = h
unless-IsKept false s t h k = k

abbrev from_of : Request → Text
from_of (summary from to team who) = from
from_of _ = []

abbrev to_of : Request → Text
to_of (summary from to team who) = to
to_of _ = []

-- What answers a request of the last run is the summary of the range in the inputs.
sent-IsOf :
    (s : SummaryPanel) (d : SummaryResponse) (l : List (ℕ × Request))
    → All (IsOwn s) l
    → IsSent s.fetch (summary d.from d.to s.team_id s.assignee_id) l
    → IsOf s (some d)
sent-IsOf s d [] h x = absurd x
sent-IsOf s d ((n, q) ∷ l) (o, h) (inl (e, r)) =
    let (asked, whole) = o (sym e) in (ap from_of (r ∙ asked), ap to_of (r ∙ asked), whole)
sent-IsOf s d ((n, q) ∷ l) (o, h) (inr r) = sent-IsOf s d l h r

answer-IsKept :
    (k : ℕ) (d : SummaryResponse) (s : SummaryPanel)
    → IsSent k (summary d.from d.to s.team_id s.assignee_id) s.sent
    → IsKept s
    → IsKept (if k == s.fetch then record s { summary_data = some d; loading = false } else s)
answer-IsKept k d s o h = elim (Bool-cases (k == s.fetch)) [
  | inl e ↦ rw e (record {
    old = h.old;
    own = h.own;
    honest = inr (
        sent-IsOf s d s.sent h.own (
          subst (λ n. IsSent n (summary d.from d.to s.team_id s.assignee_id) s.sent)
            ((==_iff k s.fetch).0 e) o));
  })
  | inr e ↦ rw e h
]

step-IsKept : (e : Event) (s : SummaryPanel) → IsOffered e s → IsKept s → IsKept (step e s)
unfolding from_typed to_typed summary_answered summary_refused
step-IsKept (type_from v) s o h = unless-IsKept (text_eq v s.from) s _ h (fetch-IsKept _ h.old)
step-IsKept (type_to v) s o h = unless-IsKept (text_eq v s.to) s _ h (fetch-IsKept _ h.old)
step-IsKept (answer k d) s o h = answer-IsKept k d s o h
step-IsKept (refusal k e) s o h =
    unless-IsKept (k == s.fetch) (record s { error = some e; summary_data = none; loading = false })
      s (record { old = h.old; own = h.own; honest = inr tt }) h
step-IsKept close s o h = record { old = h.old; own = h.own; honest = h.honest }

reached : {s : SummaryPanel} → Reach s → IsKept s
reached (start team who from to) = fetch-IsKept _ tt
reached (next {s} r e o) = step-IsKept e s o (reached r)

-- In every state that the panel of a summary reaches, whatever order the answers to its requests come
-- in, the summary shown is that of the range in its inputs, a whole range in its order, unless one is
-- being loaded.
pub Reach-IsHonest : {s : SummaryPanel} → Reach s → IsHonest s
Reach-IsHonest r = (reached r).honest
