-- ===== src/Tags.antt =====
-- ui/src/tags.ts. The two messages of an error are the constructors of `NormalizedTag`, with the
-- tag that they quote.
pub mod Laws
pub mod Filter
mod Kept
mod Tests
use task_man.Prelude.{
  ℕ, suc, Bool, true, false, ◌&&◌, ◌||◌, List, [], ◌∷◌, ltb, leb, ◌==◌, if◌then◌else◌, any_of,
}
use task_man.Text.{Text, is_empty, is_space, to_lower_case, trim}

abbrev pub max_tag_len : ℕ
max_tag_len = 30

pub data NormalizedTag : Type 0 where
  ok : Text → NormalizedTag
  invalid too_long : Text → NormalizedTag

-- `/[\s,#]/`
unfoldable pub is_forbidden : ℕ → Bool
is_forbidden c = is_space c || c == b',' || c == b'#'

-- `[...s].length`: a high surrogate and the low one after it are one character.
unfoldable pub code_points : Text → ℕ
code_points [] = 0
code_points (c ∷ []) = 1
code_points (c ∷ d ∷ s) =
    let pair = suc (code_points s) in
    let single = suc (code_points (d ∷ s)) in
    if leb 0xD800 c && leb c 0xDBFF && leb 0xDC00 d && leb d 0xDFFF then pair else single

unfoldable pub normalize_tag : Text → NormalizedTag
normalize_tag raw =
    let tag = to_lower_case (trim raw) in
    if is_empty tag
    then ok tag
    else if any_of is_forbidden tag
    then invalid tag
    else if ltb max_tag_len (code_points tag)
    then too_long tag
    else ok tag
