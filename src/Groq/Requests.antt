-- ===== src/Groq/Requests.antt =====
-- What a request may hold once the proxy passes it on.
use mandate_flow.Base.{
  ◌≡◌, refl, sym, inl, inr, ◌==◌, eq_iff, eq_refl, true, false, Option, none, some, String, List,
  [], ◌∷◌, arith, Bool-cases, mem,
}
use mandate_flow.Model.{ok}
use mandate_flow.Json.{
  Json, null, boolean, number, text, array, object, Items, blank, item, Fields, bare, field, get,
  delete,
}
use mandate_flow.Groq.{
  unsupported_request_fields, delete_all, drop_bare_reasoning, is_function, functions, put,
  only_functions, with_tools, keep_functions, sanitize_groq_responses_request,
}

get-delete_same : (key : String) (fields : Fields) → get key (delete key fields) ≡ none
get-delete_same key bare = refl
get-delete_same key (field name value rest) = elim (Bool-cases (name == key)) [
  | inl hit ↦ rw hit (get-delete_same key rest)
  | inr miss ↦ rw (miss, miss) (get-delete_same key rest)
]

-- What is not there is not there after a deletion.
get-delete-none :
    (key other : String) (fields : Fields)
    → get key fields ≡ none
    → get key (delete other fields) ≡ none
get-delete-none key other bare h = refl
get-delete-none key other (field name value rest) h = ground (arith, get-delete-none key other rest)

get-delete_all-none :
    (key : String) (names : List String) (fields : Fields)
    → get key fields ≡ none
    → get key (delete_all names fields) ≡ none
unfolding delete_all
get-delete_all-none key [] fields h = h
get-delete_all-none key (name ∷ names) fields h =
    get-delete_all-none key names (delete name fields) (get-delete-none key name fields h)

get-delete_all :
    (key : String) (names : List String) (fields : Fields)
    → mem key names ≡ true
    → get key (delete_all names fields) ≡ none
unfolding delete_all
get-delete_all key [] fields h = cc
get-delete_all key (name ∷ names) fields h = elim (Bool-cases (name == key)) [
  | inl hit ↦
      let same = (eq_iff name key).0 hit in
      rw same (get-delete_all-none key names (delete key fields) (get-delete_same key fields))
  | inr miss ↦ get-delete_all key names (delete name fields) (ground (arith, miss))
]

get-put-none :
    (key other : String) (new : Json) (fields : Fields)
    → (other == key) ≡ false
    → get key fields ≡ none
    → get key (put other new fields) ≡ none
get-put-none key other new bare apart h = rw apart refl
get-put-none key other new (field name value rest) apart h =
    ground (arith, get-put-none key other new rest apart)

pub get-put_same :
    (key : String) (new : Json) (fields : Fields) → get key (put key new fields) ≡ some new
get-put_same key new bare = rw (eq_refl key) refl
get-put_same key new (field name value rest) = elim (Bool-cases (name == key)) [
  | inl hit ↦ rw (hit, hit) refl
  | inr miss ↦ rw (miss, miss) (get-put_same key new rest)
]

abbrev pub AllFunctions : Items → Type 0
AllFunctions blank = Unit
AllFunctions (item tool rest) = (is_function tool ≡ true) × AllFunctions rest

functions-AllFunctions : (tools : Items) → AllFunctions (functions tools)
functions-AllFunctions blank = tt
functions-AllFunctions (item tool rest) = elim (Bool-cases (is_function tool)) [
  | inl hit ↦ rw hit (hit, functions-AllFunctions rest)
  | inr miss ↦ rw miss (functions-AllFunctions rest)
]

-- Where the tools are a list, it is not empty and holds functions only.
abbrev pub SafeTools : Option Json → Type 0
SafeTools (some (array blank)) = ⊥
SafeTools (some (array (item tool rest))) = AllFunctions (item tool rest)
SafeTools _ = Unit

with_tools-SafeTools :
    (tools : Items) (request : Fields)
    → AllFunctions tools
    → SafeTools (get "tools" (with_tools tools request))
with_tools-SafeTools blank request h =
    rw
      (get-delete-none "tools" "tool_choice" (delete "tools" request)
        (get-delete_same "tools" request))
      tt
with_tools-SafeTools (item tool rest) request h =
    rw (get-put_same "tools" (array (item tool rest)) request) h

only_functions-SafeTools : (request : Fields) → SafeTools (get "tools" (only_functions request))
unfolding only_functions
only_functions-SafeTools request = by_cases (get "tools" request) refl
  where
    by_cases :
        (tools : Option Json)
        → get "tools" request ≡ tools
        → SafeTools (get "tools" (keep_functions tools request))
    by_cases (some (array tools)) e =
        with_tools-SafeTools (functions tools) request (functions-AllFunctions tools)
    by_cases none e = rw e tt
    by_cases (some null) e = rw e tt
    by_cases (some (boolean b)) e = rw e tt
    by_cases (some (number n)) e = rw e tt
    by_cases (some (text s)) e = rw e tt
    by_cases (some (object fields)) e = rw e tt

only_functions_keeps :
    (key : String) (request : Fields)
    → ("tools" == key) ≡ false
    → get key request ≡ none
    → get key (only_functions request) ≡ none
unfolding only_functions
only_functions_keeps key request apart h = by_cases (get "tools" request)
  where
    with_none : (tools : Items) → get key (with_tools tools request) ≡ none
    with_none blank =
        get-delete-none key "tool_choice" (delete "tools" request)
          (get-delete-none key "tools" request h)
    with_none (item tool rest) = get-put-none key "tools" (array (item tool rest)) request apart h

    by_cases : (tools : Option Json) → get key (keep_functions tools request) ≡ none
    by_cases (some (array tools)) = with_none (functions tools)
    by_cases none = h
    by_cases (some null) = h
    by_cases (some (boolean b)) = h
    by_cases (some (number n)) = h
    by_cases (some (text s)) = h
    by_cases (some (object fields)) = h

drop_bare_reasoning_keeps :
    (key : String) (request : Fields)
    → get key request ≡ none
    → get key (drop_bare_reasoning request) ≡ none
unfolding drop_bare_reasoning
drop_bare_reasoning_keeps key request h = ground (arith, get-delete-none key "reasoning" request h)

unsupported-apart :
    (key : String) → mem key unsupported_request_fields ≡ true → ("tools" == key) ≡ false
unsupported-apart key h = elim (Bool-cases ("tools" == key)) [
  | inr miss ↦ miss
  | inl hit ↦ let same = (eq_iff "tools" key).0 hit in cc (rw (sym same) at h)
]

-- Of a request that the proxy passes on, no unsupported field is left, and its tools, where they are
-- a list, are a list of functions that is not empty.
pub sanitize_groq_responses_request_lem :
    (value : Json) (request : Fields) (key : String)
    → sanitize_groq_responses_request value ≡ ok request
    → mem key unsupported_request_fields ≡ true
    → (get key request ≡ none) × SafeTools (get "tools" request)
unfolding sanitize_groq_responses_request
sanitize_groq_responses_request_lem (object value) request key e h =
    let kept = drop_bare_reasoning (delete_all unsupported_request_fields value) in
    let same : only_functions kept ≡ request = cc in
    rw (sym same) (
      only_functions_keeps key kept (unsupported-apart key h) (
          drop_bare_reasoning_keeps key (delete_all unsupported_request_fields value)
            (get-delete_all key unsupported_request_fields value h)),
      only_functions-SafeTools kept,
    )
sanitize_groq_responses_request_lem null request key e h = cc
sanitize_groq_responses_request_lem (boolean b) request key e h = cc
sanitize_groq_responses_request_lem (number n) request key e h = cc
sanitize_groq_responses_request_lem (text s) request key e h = cc
sanitize_groq_responses_request_lem (array items) request key e h = cc
