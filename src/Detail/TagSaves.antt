-- ===== src/Detail/TagSaves.antt =====
-- The saves of the tag editor.
use task_man.Prelude.{
  ℕ, ◌+◌, ◌≡◌, refl, arith, Bool, true, false, ◌||◌, List, [], ◌∷◌, ◌++◌, none, if◌then◌else◌,
  length, length-append,
}
use task_man.Text.{Text, is_empty, trim}
use task_man.Detail.TagEditor.{
  TagEditor, save, fresh_tags, save_fresh, add_pending, remove_last, save_answered, save_refused,
  Event, type_draft, press, leave, click_remove, enter, comma, backspace, other, step, Reach, start,
  next, answered, refused,
}

abbrev pub awaited : Bool → ℕ
awaited true = 1
awaited false = 0

abbrev pub IsSingle : ℕ → TagEditor → Type 0
IsSingle n s = length s.sent ≡ n + awaited s.busy

if_awaited : {b : Bool} → b ≡ true → awaited b ≡ 1
if_awaited e = rw e refl

not_awaited : {b : Bool} → b ≡ false → awaited b ≡ 0
not_awaited e = rw e refl

if-IsSingle :
    (n : ℕ) (b : Bool) (s t : TagEditor)
    → IsSingle n s
    → IsSingle n t
    → IsSingle n (if b then s else t)
if-IsSingle n true s t h k = h
if-IsSingle n false s t h k = k

send-IsSingle :
    (n : ℕ) (tags : List Text) (c b : Bool) (s : TagEditor)
    → s.busy ≡ b
    → IsSingle n s
    → IsSingle n (
        if b
        then s
        else record s { busy = true; error = none; clears = c; sent = s.sent ++ tags ∷ [] })
send-IsSingle n tags c true s e h = h
send-IsSingle n tags c false s e h =
    omega (arith, length-append s.sent (tags ∷ []), h, not_awaited e)

save-IsSingle :
    (n : ℕ) (tags : List Text) (c : Bool) (s : TagEditor)
    → IsSingle n s
    → IsSingle n (save tags c s)
unfolding save
save-IsSingle n tags c s h = send-IsSingle n tags c s.busy s refl h

fresh-IsSingle :
    (n : ℕ) (tags ts : List Text) (s : TagEditor) → IsSingle n s → IsSingle n (save_fresh tags ts s)
fresh-IsSingle n tags [] s h = h
fresh-IsSingle n tags (t ∷ ts) s h = save-IsSingle n _ true s h

add-IsSingle :
    (n : ℕ) (tags : List Text) (s : TagEditor) → IsSingle n s → IsSingle n (add_pending tags s)
unfolding add_pending
add-IsSingle n tags s h =
    if-IsSingle n (is_empty (trim s.draft) || s.busy) s _ h
      (fresh-IsSingle n tags (fresh_tags tags s.draft) s h)

last-IsSingle :
    (n : ℕ) (tags : List Text) (s : TagEditor) → IsSingle n s → IsSingle n (remove_last tags s)
last-IsSingle n [] s h = h
last-IsSingle n (t ∷ ts) s h = save-IsSingle n _ false s h

step-IsSingle : (n : ℕ) (e : Event) (s : TagEditor) → IsSingle n s → IsSingle n (step e s)
step-IsSingle n (type_draft v) s h = h
step-IsSingle n (press tags enter) s h = add-IsSingle n tags s h
step-IsSingle n (press tags comma) s h = add-IsSingle n tags s h
step-IsSingle n (press tags backspace) s h =
    if-IsSingle n (is_empty s.draft) _ s (last-IsSingle n tags s h) h
step-IsSingle n (press tags other) s h = h
step-IsSingle n (leave tags) s h = if-IsSingle n _ _ s (add-IsSingle n tags s h) h
step-IsSingle n (click_remove tags t) s h = save-IsSingle n _ false s h

-- At every moment the editor has sent as many saves as are over, and one more just when it is busy: no
-- two saves are awaited at once.
pub Reach-IsSingle : {n : ℕ} {s : TagEditor} → Reach n s → IsSingle n s
unfolding save_answered save_refused
Reach-IsSingle start = refl
Reach-IsSingle (next {n} {s} r e) = step-IsSingle n e s (Reach-IsSingle r)
Reach-IsSingle (answered {n} {s} r b) = omega (arith, Reach-IsSingle r, if_awaited b)
Reach-IsSingle (refused {n} {s} r b e) = omega (arith, Reach-IsSingle r, if_awaited b)
