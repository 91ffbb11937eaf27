-- ===== src/Lib.antt =====
-- The core logic of the task manager's user interface (ui/src), which is written in TypeScript.
--
-- The parts and how they interact:
-- - Period: ui/src/period.ts, the texts of dates, ISO weeks and months, and their arithmetic.
-- - QuickAdd: ui/src/components/quickAddParser.ts, `parseQuickAdd`, which reads the tokens of a
--   typed line (`!high`, `@name`, `#tag`, `*weekly`, `^fri`). It uses Period.
-- - Composer: ui/src/components/TaskComposer.tsx. Composer.Draft has the state as the record
--   `Composer`, with the helpers on drafts; Composer.Create the three paths that create a task
--   (`fastCreate`, `createFromDraft`, `create`) up to the call, and the answer to it; and
--   Composer.Events the handlers, as one function `step` from an event and a state to a state, with
--   `Reach`, the states that sequences of events lead to. It uses QuickAdd and Period.
-- - Api.Types and Api.Client: ui/src/api.ts, the data on the wire, `request`, `qs` and `api`.
-- - Tags and Tags.Filter: ui/src/tags.ts, and the store of ui/src/components/TagFilter.tsx.
-- - Summary: ui/src/components/summaryFormat.ts, the CSV and the Markdown of a summary;
--   Summary.Reader is a reader of quoted CSV by which the file is specified.
-- - Attention: ui/src/views/AttentionView.tsx. Attention.Copy has the texts of a row,
--   Attention.Selection the state and the selection, Attention.Bulk the five bulk actions and the
--   calls of their undo, and Attention.Events the answers, the failures and the function `step` from
--   an event and a state to a state; the toast is that of ui/src/components/Toast.tsx.
-- - Picks: the sets of identifiers that the views select; Panel: the message, the selection, the toast
--   and the calls that the views of a team and of the backlog keep alike.
-- - Rollover: ui/src/views/TeamRollover.tsx, with its weeks, its selection and its two bulk actions.
-- - Backlog: ui/src/views/BacklogView.tsx, with the priority groups, the deletion and the assignment
--   of parked tasks; the split by completion of CompletedFold.tsx, the cycle of StatusControl.tsx and
--   the choice of AssignPopover.tsx (ui/src/components) stand there too.
-- - Team: ui/src/views/TeamPage.tsx. Team.Order has `compareDue` and the sorting, Team.Tone the colour
--   of a member, Team.Page the state and its loading, Team.Bulk the actions on the selection,
--   Team.Members the panel of the members, Team.Events the function `step`.
-- - Detail: ui/src/components/TaskDetail.tsx. Detail has the edits of a repetition, Detail.Panel the
--   state and its operations, Detail.Steps the function `step`, Detail.TagEditor the row of the tags.
-- - History: ui/src/views/TeamHistory.tsx, the paging. SummaryPanel: the component of that name in
--   ui/src/components, its range and its fetch.
-- - Session: ui/src/auth, the state of the session with the login; Session.Form the form of a new
--   password. Row: ui/src/components/TaskRow.tsx, the calls of a row and its due chip. The events of
--   both stand in their Kept.
-- - Api.Requests are the calls that the views make, Api.Patches the patches that they are written with;
--   Api.Undone says when a batch of patches takes another one back, of the calls alone: what else the
--   server does to a task, as to stamp it, is not modelled.
-- Samples has the data of the tests.
-- Prelude has what the parts share; Text the texts and their operations; Calendar the days.
--
-- How the code corresponds: a component's state is a record, each handler a function on it, and an
-- awaited call is cut in two: the part up to the call, which adds the request to the list `sent`, and
-- the part after it, an event of its own. So answers may come at any moment and between any others.
-- A handler sees the state of the last render, which is the state before the event. A missing
-- field is `none`; `null`, left out and a value are the three constructors of `Change`.
--
-- Texts are lists of UTF-16 code units, as in the language. Lower and upper case are exact on
-- ASCII and leave other units alone. `Number` reads plain decimals; `none` stands for NaN and an
-- invalid date. A date is the number of its day, from the 1st of January of the year 0 on, and an
-- earlier one is `none` too. The wall clock (`Now`), the locale's labels, `encodeURIComponent`,
-- `JSON.parse` and what the browser has stored are parameters, with what is documented of them as
-- hypotheses where a theorem needs it.
--
-- An effect that is cancelled is modelled by a counter of its runs: an answer carries the run that it
-- belongs to, and is dropped when it is not the last one. `sort` with a comparison is an insertion
-- sort, which is stable.
--
-- Fuel: `show` has as much as the number, plus one, and never runs out, by `number-show`;
-- `week_dates_from` counts the seven days. Everything else is structural recursion.
--
-- Not modelled: markup and styles; the day, week, month, search and list views and the shell, which
-- are mostly markup; the Go server, which is in another language; and the desktop shell.
pub mod Prelude
pub mod Text
pub mod Calendar
pub mod Period
pub mod Api
pub mod QuickAdd
pub mod Composer
pub mod Tags
pub mod Summary
pub mod Picks
pub mod Attention
pub mod Panel
pub mod Samples
pub mod Rollover
pub mod Backlog
pub mod Team
pub mod Detail
pub mod History
pub mod SummaryPanel
pub mod Session
pub mod Row
