-- ===== src/Summary/Reader.antt =====
-- A reader of quoted CSV, by which the written file is specified: rows end in CR LF, fields are
-- quoted and parted by commas, and a quote in a field is doubled.
use task_man.Prelude.{ℕ, List, [], ◌∷◌, ◌++◌, Option, none, some, if◌then◌else◌, ◌==◌}
use task_man.Text.{Text}

pub data Mode : Type 0 where
  row_start field_start in_field quote_seen cr_seen : Mode

-- The field, the row and the rows read so far.
pub record Read : Type 0 where
  pub mode : Mode
  pub field : Text
  pub row : List Text
  pub rows : List (List Text)

abbrev pub read_step : Mode → ℕ → Read → Option Read
read_step Mode.row_start c r = if c == b'"' then some (record r { mode = in_field }) else none
read_step Mode.field_start c r = if c == b'"' then some (record r { mode = in_field }) else none
read_step Mode.in_field c r =
    if c == b'"'
    then some (record r { mode = quote_seen })
    else some (record r { field = r.field ++ c ∷ [] })
read_step Mode.quote_seen c r =
    if c == b'"'
    then some (record r { mode = in_field; field = r.field ++ c ∷ [] })
    else if c == b','
    then some (record r { mode = field_start; field = []; row = r.row ++ r.field ∷ [] })
    else if c == 13
    then some (record r { mode = cr_seen; field = []; row = r.row ++ r.field ∷ [] })
    else none
read_step Mode.cr_seen c r =
    if c == 10
    then some (record r { mode = row_start; row = []; rows = r.rows ++ r.row ∷ [] })
    else none

unfoldable pub read : Text → Read → Option Read
read [] r = some r
read (c ∷ s) r = elim (read_step r.mode c r) [ none ↦ none | some next ↦ read s next ]

abbrev pub between_rows : List (List Text) → Read
between_rows rows = record { mode = row_start; field = []; row = []; rows = rows }

-- The rows of a whole file.
abbrev pub finished : Option Read → Option (List (List Text))
finished none = none
finished (some (r)) = elim r.mode as (λ m. Option (List (List Text))) [
  | Mode.row_start ↦ some r.rows
  | _ ↦ none
]

unfoldable pub read_csv : Text → Option (List (List Text))
unfolding read
read_csv s = finished (read s (between_rows []))
