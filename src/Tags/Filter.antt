-- ===== src/Tags/Filter.antt =====
-- ui/src/components/TagFilter.tsx: the store of the selected tags. `JSON.parse` and the browser's
-- storage are not code of the program: what they give is `Stored`.
use task_man.Prelude.{
  Bool, not, ◌&&◌, List, [], ◌∷◌, ◌++◌, map, Option, none, some, if◌then◌else◌, any_of, keep_if,
}
use task_man.Text.{Text, text_eq, is_empty}
use task_man.Tags.{NormalizedTag, ok, invalid, too_long, normalize_tag}

-- The stored text: none or empty, no JSON or no access, no list, or a list in which `none` is what
-- is no string.
pub data Stored : Type 0 where
  missing unreadable other_value : Stored
  array : List (Option Text) → Stored

abbrev pub includes_tag : Text → List Text → Bool
includes_tag tag tags = any_of (λ t. text_eq t tag) tags

abbrev pub push_tag : NormalizedTag → List Text → List Text
push_tag (ok tag) out =
    if not (is_empty tag) && not (includes_tag tag out) then out ++ tag ∷ [] else out
push_tag (invalid tag) out = out
push_tag (too_long tag) out = out

-- The loop of `readStored`.
unfoldable pub read_entries : List (Option Text) → List Text → List Text
read_entries [] out = out
read_entries (none ∷ xs) out = read_entries xs out
read_entries (some x ∷ xs) out = read_entries xs (push_tag (normalize_tag x) out)

unfoldable pub read_stored : Stored → List Text
read_stored missing = []
read_stored unreadable = []
read_stored other_value = []
read_stored (array xs) = read_entries xs []

-- The module's variable, and what the browser stores.
pub record TagStore : Type 0 where
  pub selected : List Text
  pub stored : Stored

-- `setSelected`; `available` is false where the storage throws.
unfoldable pub set_selected : Bool → List Text → TagStore → TagStore
set_selected available next s = record s {
  selected = next;
  stored =
      if available
      then (elim next [ [] ↦ missing | t ∷ ts ↦ array (map some (t ∷ ts)) ])
      else s.stored;
}

unfoldable pub toggle_tag : Text → List Text → List Text
toggle_tag tag tags =
    if includes_tag tag tags then keep_if (λ t. not (text_eq t tag)) tags else tags ++ tag ∷ []

-- The selected tags that the server no longer knows.
unfoldable pub stale_tags : List Text → List Text → List Text
stale_tags known tags = keep_if (λ t. not (includes_tag t known)) tags
