-- ===== src/History/Paged.antt =====
-- Loading page after page.
use task_man.Prelude.{
  ℕ, zero, suc, ◌+◌, ◌*◌, ◌≤◌, ltb, ◌≡◌, refl, sym, ap, subst, ◌∙◌, arith, true, false, List, [],
  ◌∷◌, ◌++◌, some, if◌then◌else◌, get_or, length, take, drop,
}
use task_man.Text.{Text}
use task_man.Api.Types.{TaskView, HistoryResponse}
use task_man.Api.Requests.{Request, team_history}
use task_man.History.{
  page_size, max_limit, History, first_history, history_for, page_answered, load_more, reload_limit,
}

-- A page of the server's list.
abbrev pub page_of : List TaskView → ℕ → ℕ → HistoryResponse
page_of all offset limit = record {
  tasks = take limit (drop offset all);
  has_more = ltb (offset + limit) (length all);
}

-- The server's answer to the request that was sent last.
abbrev pub reply : List TaskView → Request → HistoryResponse
reply all (team_history team offset limit tags) = page_of all offset limit
reply all _ = page_of [] 0 0

abbrev pub reply_last : List TaskView → List Request → HistoryResponse
reply_last all [] = page_of [] 0 0
reply_last all (r ∷ []) = reply all r
reply_last all (r ∷ q ∷ sent) = reply_last all (q ∷ sent)

-- A click on `Load more`, and the answer to the request that it makes.
abbrev pub turn : List TaskView → History → History
turn all s = let t = load_more s in page_answered false (reply_last all t.sent) t

abbrev pub turns : List TaskView → ℕ → History → History
turns all zero s = s
turns all (suc n) s = turn all (turns all n s)

-- The view after its first page.
abbrev pub first_page : List TaskView → Text → List Text → History
first_page all team tags =
    let t = first_history team tags in page_answered true (reply_last all t.sent) t

take-nil : (n : ℕ) → take {A = TaskView} n [] ≡ []
take-nil zero = refl
take-nil (suc n) = refl

take-take-drop :
    (a b : ℕ) (l : List TaskView) → take a l ++ take b (drop (length (take a l)) l) ≡ take (a + b) l
take-take-drop zero b l = ap (λ n. take n l) (omega arith)
take-take-drop (suc a) b [] = take-nil b ∙ sym (take-nil (suc a + b))
take-take-drop (suc a) b (t ∷ l) =
    ap (λ r. t ∷ r) (take-take-drop a b l) ∙ ap (λ n. take n (t ∷ l)) (shifted a b)
  where
    shifted : (m n : ℕ) → suc (m + n) ≡ suc m + n
    shifted m n = omega arith

take-all : (n : ℕ) (l : List TaskView) → length l ≤ n → take n l ≡ l
take-all n [] h = take-nil n
take-all zero (t ∷ l) h = ground (arith, h)
take-all (suc n) (t ∷ l) h = ap (λ r. t ∷ r) (take-all n l (omega (arith, h)))

length-take :
    (n : ℕ) (l : List TaskView) → length (take n l) ≡ (if ltb n (length l) then n else length l)
length-take zero [] = refl
length-take zero (t ∷ l) = ground arith
length-take (suc n) [] = ground arith
length-take (suc n) (t ∷ l) = ground (arith, length-take n l)

-- The first pages of the list are shown, more are offered when there are more, and none is awaited.
abbrev pub Shows : List TaskView → ℕ → History → Type 0
Shows all n s =
    (s.tasks ≡ some (take n all)) × (s.has_more ≡ ltb n (length all)) × (s.loading_more ≡ false)

more_lem :
    (all : List TaskView) (n : ℕ)
    → ltb (length (take n all) + page_size) (length all) ≡ ltb (n + page_size) (length all)
more_lem all n = ground (arith, length-take n all)

load_more-tasks : (s : History) → (load_more s).tasks ≡ s.tasks
unfolding load_more
load_more-tasks s = ground arith

reply_last-append :
    (all : List TaskView) (sent : List Request) (r : Request)
    → reply_last all (sent ++ r ∷ []) ≡ reply all r
reply_last-append all [] r = refl
reply_last-append all (q ∷ []) r = refl
reply_last-append all (q ∷ p ∷ sent) r = reply_last-append all (p ∷ sent) r

load_more-sent :
    (s : History) (ts : List TaskView)
    → s.tasks ≡ some ts
    → s.loading_more ≡ false
    → (load_more s).sent ≡ s.sent ++ team_history s.team_id (length ts) page_size s.tags ∷ []
unfolding load_more
load_more-sent s ts e i = ground (arith, e, i)

load_more-reply :
    (all : List TaskView) (n : ℕ) (s : History)
    → Shows all n s
    → reply_last all (load_more s).sent ≡ page_of all (length (take n all)) page_size
load_more-reply all n s (e, m, i) =
    ap (reply_last all) (load_more-sent s (take n all) e i)
    ∙ reply_last-append all s.sent (team_history s.team_id (length (take n all)) page_size s.tags)

turn-Shows :
    (all : List TaskView) (n : ℕ) (s : History)
    → Shows all n s
    → Shows all (n + page_size) (turn all s)
unfolding page_answered
turn-Shows all n s (e, m, i) =
    let kept : (load_more s).tasks ≡ some (take n all) = load_more-tasks s ∙ e in
    rw (load_more-reply all n s (e, m, i), kept)
      (ap (λ r. some r) (take-take-drop n page_size all), more_lem all n, refl)

first-Shows :
    (all : List TaskView) (team : Text) (tags : List Text)
    → Shows all page_size (first_page all team tags)
unfolding page_answered history_for
first-Shows all team tags = (refl, refl, refl)

turns-Shows :
    (all : List TaskView) (n : ℕ) (s : History) (m : ℕ)
    → Shows all m s
    → Shows all (m + n * page_size) (turns all n s)
turns-Shows all zero s m h = subst (λ k. Shows all k s) (omega arith) h
turns-Shows all (suc n) s m h =
    subst (λ k. Shows all k (turn all (turns all n s))) (omega arith)
      (turn-Shows all (m + n * page_size) (turns all n s) (turns-Shows all n s m h))

-- As many clicks on `Load more` as there are pages after the first show the whole of the server's list,
-- in its order, with nothing awaited and no more offered; clicks beyond them change nothing of this.
pub turns_complete :
    (all : List TaskView) (team : Text) (tags : List Text) (n : ℕ)
    → length all ≤ page_size + n * page_size
    → ((turns all n (first_page all team tags)).tasks ≡ some all)
      × ((turns all n (first_page all team tags)).has_more ≡ false)
      × ((turns all n (first_page all team tags)).loading_more ≡ false)
turns_complete all team tags n h =
    let (tasks, more, idle) =
      turns-Shows all n (first_page all team tags) page_size (first-Shows all team tags) in
    (
      tasks ∙ ap (λ r. some r) (take-all (page_size + n * page_size) all h),
      more ∙ ground (arith, h),
      idle,
    )

-- Asking again from the top asks for one page at least and for no more than the server gives, and for
-- all the tasks shown where these are no more than that.
pub reload_limit-bounds :
    (s : History)
    → (page_size ≤ reload_limit s)
      × (reload_limit s ≤ max_limit)
      × (length (get_or s.tasks []) ≤ max_limit → length (get_or s.tasks []) ≤ reload_limit s)
reload_limit-bounds s = (ground arith, ground arith, λ h. ground (arith, h))
