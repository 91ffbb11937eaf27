-- ===== src/Api/Calls.antt =====
-- The answers of the API client, and its query strings, which a reader of them takes apart again.
use task_man.Prelude.{
  ℕ, ◌≡◌, ◌≢◌, ◌⊎◌, ◌↔◌, inl, inr, refl, sym, ap, ◌∙◌, arith, Bool, true, false, not, ◌&&◌, ◌||◌,
  leb, All, List, [], ◌∷◌, ◌++◌, map, append_assoc, append-nil, Option, none, some, if◌then◌else◌,
  All-append, ◌==◌, ==_iff, Bool-cases,
}
use task_man.Text.{Text, lit, is_empty, split_where, join}
use task_man.Text.Laws.{Avoids, split_where-last, split_where-append}
use task_man.Api.Client.{
  Response, is_ok, value, no_value, api_error, message_of, request, Param, items_of, push_items,
  push_params, qs, Endpoint, login, change_password, suppresses, call_api,
}

suppress-cases : (e : Endpoint) → suppresses e ≡ true → (e ≡ login) ⊎ (e ≡ change_password)
suppress-cases e h = ground (arith, h)

-- The listeners of `onUnauthorized` are called exactly on a 401 to a call that is neither the
-- login nor the change of the password.
pub call_api-dispatched {ℓ} :
    {A : Type ℓ} (error_of : Text → Option Text) (decode : Text → Option A) (e : Endpoint)
    (r : Response)
    → ((call_api error_of decode e r).dispatched ≡ true)
      ↔ ((r.status ≡ 401) × (e ≢ login) × (e ≢ change_password))
unfolding request
call_api-dispatched error_of decode e r = (there, back)
  where
    only_401 :
        (b : Bool)
        → (request error_of decode b r).dispatched ≡ true
        → (r.status ≡ 401) × (b ≡ false)
    only_401 b h = ground (arith, h, ==_iff r.status 401)

    there :
        (call_api error_of decode e r).dispatched ≡ true
        → (r.status ≡ 401) × (e ≢ login) × (e ≢ change_password)
    there h =
        let (unauthorised, heard) = only_401 (suppresses e) h in
        (
          unauthorised,
          λ q. ground (arith, heard, ap suppresses q),
          λ q. ground (arith, heard, ap suppresses q),
        )

    back :
        (r.status ≡ 401) × (e ≢ login) × (e ≢ change_password)
        → (call_api error_of decode e r).dispatched ≡ true
    back (h, l, c) = elim (Bool-cases (suppresses e)) [
      | inl s ↦ elim (suppress-cases e s) [ inl q ↦ absurd (l q) | inr q ↦ absurd (c q) ]
      | inr s ↦ rw (h, s) refl
    ]

-- An answer outside 200 to 299 is an error with its status; one inside is a value only where
-- `JSON.parse` gives it, and no value where the answer is a 204 or empty.
pub request-result {ℓ} :
    {A : Type ℓ} (error_of : Text → Option Text) (decode : Text → Option A) (suppress : Bool)
    (r : Response)
    → ((is_ok r ≡ false)
        → (request error_of decode suppress r).result ≡ api_error r.status (message_of error_of r))
      × ((x : A)
          → (request error_of decode suppress r).result ≡ value x
          → (is_ok r ≡ true) × (decode r.body ≡ some x))
      × ((is_ok r ≡ true) → r.body ≡ [] → (request error_of decode suppress r).result ≡ no_value)
unfolding request
request-result error_of decode suppress r =
    (λ h. rw h refl, λ x h. ground (arith, h), λ h k. ground (arith, h, k))

-- The pairs that a query string is to hold: every item that is not empty, in order.
abbrev pub with_key : Text → List Text → List (Text × Text)
with_key k [] = []
with_key k (v ∷ vs) = let rest = with_key k vs in if is_empty v then rest else (k, v) ∷ rest

abbrev pub pairs_of : List (Text × Param) → List (Text × Text)
pairs_of [] = []
pairs_of ((k, v) ∷ ps) = with_key k (items_of v) ++ pairs_of ps

abbrev is_amp : ℕ → Bool
is_amp c = c == b'&'

abbrev is_equals : ℕ → Bool
is_equals c = c == b'='

-- The reader of a query string.
abbrev pub pair_of : (Text → Text) → List Text → Option (Text × Text)
pair_of decode (k ∷ v ∷ []) = some (decode k, decode v)
pair_of decode _ = none

abbrev pub read_pair : (Text → Text) → Text → Option (Text × Text)
read_pair decode w = pair_of decode (split_where is_equals w)

abbrev pub read_query : (Text → Text) → Text → List (Option (Text × Text))
read_query decode [] = []
read_query decode (c ∷ s) = map (read_pair decode) (split_where is_amp s)

-- No surrogate of the text stands alone: each high one is followed by a low one.
abbrev pub is_high : ℕ → Bool
is_high c = leb 0xD800 c && leb c 0xDBFF

abbrev pub is_low : ℕ → Bool
is_low c = leb 0xDC00 c && leb c 0xDFFF

abbrev pub well_formed : Text → Bool
well_formed [] = true
well_formed (c ∷ []) = not (is_high c || is_low c)
well_formed (c ∷ d ∷ s) =
    let pair = well_formed s in
    let single = well_formed (d ∷ s) in
    if is_high c then is_low d && pair else not (is_low c) && single

-- What is documented of `encodeURIComponent` and its inverse, which throw where a surrogate stands alone.
pub record IsEncoding (encode decode : Text → Text) : Type 0 where
  pub back : (s : Text) → well_formed s ≡ true → decode (encode s) ≡ s
  pub no_amp : (s : Text) → well_formed s ≡ true → Avoids (λ c. c == b'&') (encode s)
  pub no_equals : (s : Text) → well_formed s ≡ true → Avoids (λ c. c == b'=') (encode s)

abbrev pub IsWellFormed : Text × Text → Type 0
IsWellFormed x = (well_formed x.0 ≡ true) × (well_formed x.1 ≡ true)

module _ (encode decode : Text → Text) (q : IsEncoding encode decode) where
  abbrev part : Text × Text → Text
  part (k, v) = encode k ++ (lit "=" ++ encode v)

  push_items-eq :
      (k : Text) (vs parts : List Text)
      → push_items encode k vs parts ≡ parts ++ map part (with_key k vs)
  unfolding push_items
  push_items-eq k [] parts = sym (append-nil parts)
  push_items-eq k (v ∷ vs) parts = elim (Bool-cases (is_empty v)) [
    | inl e ↦ rw e (push_items-eq k vs parts)
    | inr e ↦ rw e (
        push_items-eq k vs (parts ++ part (k, v) ∷ [])
        ∙ append_assoc parts (part (k, v) ∷ []) (map part (with_key k vs)))
  ]

  map-append : (xs ys : List (Text × Text)) → map part (xs ++ ys) ≡ map part xs ++ map part ys
  map-append [] ys = refl
  map-append (x ∷ xs) ys = ap (λ l. part x ∷ l) (map-append xs ys)

  push_params-eq :
      (ps : List (Text × Param)) (parts : List Text)
      → push_params encode ps parts ≡ parts ++ map part (pairs_of ps)
  unfolding push_params
  push_params-eq [] parts = sym (append-nil parts)
  push_params-eq ((k, v) ∷ ps) parts =
      rw
        (
          push_items-eq k (items_of v) parts,
          push_params-eq ps (parts ++ map part (with_key k (items_of v))),
          map-append (with_key k (items_of v)) (pairs_of ps),
        )
        (append_assoc parts (map part (with_key k (items_of v))) (map part (pairs_of ps)))

  part-Avoids : (x : Text × Text) → IsWellFormed x → Avoids is_amp (part x)
  part-Avoids (k, v) (a, b) =
      All-append (λ c. is_amp c ≡ false) (encode k) (b'=' ∷ encode v) (q.no_amp k a)
        (refl, q.no_amp v b)

  read-part : (x : Text × Text) → IsWellFormed x → read_pair decode (part x) ≡ some x
  read-part (k, v) (a, b) =
      ap (pair_of decode) (
        split_where-append is_equals (encode k) b'=' (encode v) (q.no_equals k a) refl
        ∙ ap (λ l. encode k ∷ l) (split_where-last is_equals (encode v) (q.no_equals v b)))
      ∙ rw (q.back k a, q.back v b) refl

  read-joined :
      (x : Text × Text) (xs : List (Text × Text))
      → All IsWellFormed (x ∷ xs)
      → map (read_pair decode) (split_where is_amp (join (lit "&") (map part (x ∷ xs))))
        ≡ map some (x ∷ xs)
  unfolding join
  read-joined x [] (w, h) =
      rw (split_where-last is_amp (part x) (part-Avoids x w), read-part x w) refl
  read-joined x (y ∷ ys) (w, h) =
      rw
        (
          split_where-append is_amp (part x) b'&' (join (lit "&") (map part (y ∷ ys)))
              (part-Avoids x w) refl,
          read-part x w,
        )
        (ap (λ l. some x ∷ l) (read-joined y ys h))

  read_parts :
      (xs : List (Text × Text))
      → All IsWellFormed xs
      → read_query decode
          (elim (map part xs) [ [] ↦ [] | p ∷ parts ↦ lit "?" ++ join (lit "&") (p ∷ parts) ])
        ≡ map some xs
  read_parts [] h = refl
  read_parts (x ∷ xs) h = read-joined x xs h

  -- Where the encoding can be undone and leaves no `&` and no `=` in a text without lone surrogates, and
  -- no item or key has one, a reader of the query string finds exactly the items that are not empty,
  -- each with its key, in order.
  pub read_query-qs :
      (ps : List (Text × Param))
      → All IsWellFormed (pairs_of ps)
      → read_query decode (qs encode ps) ≡ map some (pairs_of ps)
  unfolding qs
  read_query-qs ps h =
      ap
        (λ l.
          read_query decode
            (elim l [ [] ↦ [] | p ∷ parts ↦ lit "?" ++ join (lit "&") (p ∷ parts) ]))
        (push_params-eq ps [])
      ∙ read_parts (pairs_of ps) h
