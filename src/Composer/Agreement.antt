-- ===== src/Composer/Agreement.antt =====
-- Enter and Shift+Enter on one text, and the draft across collapsing and expanding.
use task_man.Prelude.{ltb, false, true, refl, ◌≡◌, ◌≢◌, ◌⊎◌, arith, none, some}
use task_man.Text.{Text, trim}
use task_man.Period.{Now, today}
use task_man.QuickAdd.{ParsedQuickAdd, nothing_parsed, parse_quick_add}
use task_man.QuickAdd.Title.{parse_quick_add_again, trim-title}
use task_man.Composer.Draft.{
  Props, TeamProps, team, personal, backlog, members_of, default_assignee_of, Composer,
  resolve_assignee_name, where_to, merge_repeat, merge_tags, draft_field_count, expand_with, expand,
  collapse,
}
use task_man.Composer.Create.{draft_input, card_input, create_from_draft}
use task_man.Composer.Events.{enter, on_collapsed_key_down}

expand_with_again :
    (props : Props) (p : ParsedQuickAdd) (s : Composer)
    → expand_with props
        (record nothing_parsed { title = p.title })
        (collapse (expand_with props p s))
      ≡ expand_with props p s
unfolding expand_with collapse merge_repeat merge_tags resolve_assignee_name
expand_with_again props p s = ground arith

-- On one day, collapsing the card that was just expanded and expanding it again gives the same
-- state: nothing of the draft is lost, and no word of the title is read as a token.
pub expand-collapse-expand :
    (now : Now) (props : Props) (s : Composer)
    → expand now props (collapse (expand now props s)) ≡ expand now props s
unfolding expand
expand-collapse-expand now props s = rw title (expand_with_again props parsed s)
  where
    parsed : ParsedQuickAdd
    parsed = parse_quick_add s.title (today now)

    title :
        parse_quick_add (collapse (expand_with props parsed s)).title (today now)
        ≡ record nothing_parsed { title = parsed.title }
    title = unfold expand_with collapse in parse_quick_add_again (today now) s.title

-- The assignee that the page's filter gives plays no part: it is none, or one is set already.
abbrev pub FilterIdle : Props → ParsedQuickAdd → Composer → Type 0
FilterIdle props p s =
    (default_assignee_of props ≡ none)
    ⊎ ((s.assignee_id ≢ none) ⊎ (resolve_assignee_name p.assignee_name (members_of props) ≢ none))

same_input :
    (now : Now) (props : Props) (p : ParsedQuickAdd) (s : Composer)
    → trim p.title ≡ p.title
    → FilterIdle props p s
    → draft_input now props p s ≡ card_input now props (expand_with props p s)
unfolding draft_input card_input expand_with where_to
same_input now (team t) p s e idle = ground arith
same_input now (personal q) p s e idle = ground arith
same_input now backlog p s e idle = ground arith

-- Enter on a collapsed draft asks for the same task as Shift+Enter and then creating from the card,
-- where the filter's default assignee changes nothing: in another context than a team's page, or with
-- no filter, or where the text names a member or the draft has an assignee.
pub draft_input-card_input :
    (now : Now) (props : Props) (s : Composer)
    → FilterIdle props (parse_quick_add s.title (today now)) s
    → draft_input now props (parse_quick_add s.title (today now)) s
      ≡ card_input now props (expand now props s)
unfolding expand
draft_input-card_input now props s idle =
    same_input now props (parse_quick_add s.title (today now)) s (trim-title (today now) s.title)
      idle

-- Where a collapsed draft on a team's page has a field set, the page is filtered to a member, the draft
-- has no assignee and the text names none, the two differ: Enter creates from the draft, which asks for
-- an unassigned task, and the card asks for one of that member.
pub draft_input-ne-card_input :
    (now : Now) (t : TeamProps) (s : Composer) (a : Text)
    → ltb 0 (draft_field_count (team t) s) ≡ true
    → t.default_assignee_id ≡ some a
    → s.assignee_id ≡ none
    → resolve_assignee_name (parse_quick_add s.title (today now)).assignee_name t.members ≡ none
    → (on_collapsed_key_down now (team t) enter false s ≡ create_from_draft now (team t) s)
      × ((draft_input now (team t) (parse_quick_add s.title (today now)) s).assignee_id ≡ none)
      × ((card_input now (team t) (expand now (team t) s)).assignee_id ≡ some a)
unfolding draft_input card_input expand expand_with on_collapsed_key_down
draft_input-ne-card_input now t s a drafted filter unset unnamed =
    (rw drafted refl, ground arith, ground arith)
