-- ===== src/Api/Tests.antt =====
-- Examples of requests and query strings, and the witnesses of the theorems on them.
use task_man.Prelude.{
  ℕ, ◌+◌, ◌-◌, ◌≡◌, ◌≢◌, ◌↔◌, refl, arith, true, List, [], ◌∷◌, map, Option, none, some, ◌==◌,
}
use task_man.Text.{Text, lit, text_run}
use task_man.Text.Laws.{Avoids}
use task_man.Text.Decimal.{show, show_fuel}
use task_man.Api.Client.{
  Response, Param, undefined, one, many, push_items, push_params, qs, Endpoint, login,
  change_password, backlog, path_of, call_api,
}
use task_man.Api.Calls.{call_api-dispatched, pairs_of, read_query, IsEncoding, read_query-qs}

abbrev expired : Response
expired = record { status = 401; status_text = lit "Unauthorized"; body = [] }

abbrev no_error : Text → Option Text
no_error body = none

abbrev as_text : Text → Option Text
as_text body = some body

call_api-dispatched_example :
    ((call_api no_error as_text (backlog undefined) expired).dispatched ≡ true)
    ↔ ((expired.status ≡ 401) × (backlog undefined ≢ login) × (backlog undefined ≢ change_password))
call_api-dispatched_example = call_api-dispatched no_error as_text (backlog undefined) expired

-- An encoding that stands in for `encodeURIComponent`: every unit is shifted out of the way.
abbrev shift : Text → Text
shift s = map (λ c. c + 100) s

abbrev shift_back : Text → Text
shift_back s = map (λ c. c - 100) s

shifted-back : (s : Text) → shift_back (shift s) ≡ s
shifted-back [] = refl
shifted-back (c ∷ s) = rw (shifted-back s) (cc (unit c))
  where
    unit : (d : ℕ) → (d + 100) - 100 ≡ d
    unit d = omega arith

shifted-no_amp : (s : Text) → Avoids (λ c. c == b'&') (shift s)
shifted-no_amp [] = tt
shifted-no_amp (c ∷ s) = (ground arith, shifted-no_amp s)

shifted-no_equals : (s : Text) → Avoids (λ c. c == b'=') (shift s)
shifted-no_equals [] = tt
shifted-no_equals (c ∷ s) = (ground arith, shifted-no_equals s)

shift-IsEncoding : IsEncoding shift shift_back
shift-IsEncoding = record {
  back = λ s w. shifted-back s;
  no_amp = λ s w. shifted-no_amp s;
  no_equals = λ s w. shifted-no_equals s;
}

abbrev two_tags : List (Text × Param)
two_tags =
    (lit "teamId", undefined)
    ∷ (lit "q", one [])
    ∷ (lit "tag", many (lit "a" ∷ [] ∷ lit "b" ∷ []))
    ∷ []

two_tags_test : qs (λ s. s) two_tags ≡ lit "?tag=a&tag=b"
unfolding text_run qs push_params push_items
two_tags_test = refl

history_test :
    path_of (λ s. s) (Endpoint.team_history (lit "t1") 0 20 undefined)
    ≡ lit "/teams/t1/history?offset=0&limit=20"
unfolding text_run path_of qs push_params push_items show show_fuel
history_test = refl

read_query-qs_example : read_query shift_back (qs shift two_tags) ≡ map some (pairs_of two_tags)
read_query-qs_example =
    read_query-qs shift shift_back shift-IsEncoding two_tags ((refl, refl), ((refl, refl), tt))
