-- ===== src/Js/Json.antt =====
-- `JSON.stringify`, which keeps the order of the properties.
use agentguard_action_proxy.Common.{String, true, false, List, [], ◌∷◌, concat, join}
use agentguard_action_proxy.Js.{Js}
use agentguard_action_proxy.Js.Value.{
  Value, null, bool, num, str, arr, obj, Items, nil, cons, Fields, end, field,
}

unfoldable mutual
  pub json_stringify : {js : Js} → Value js → String
  json_stringify null = "null"
  json_stringify (bool true) = "true"
  json_stringify (bool false) = "false"
  json_stringify {js} (num n) = js.json_of_number n
  json_stringify {js} (str s) = js.json_of_text s
  json_stringify (arr xs) = concat ("[" ∷ join "," (json_items xs) ∷ "]" ∷ [])
  json_stringify (obj fs) = concat ("{" ∷ join "," (json_fields fs) ∷ "}" ∷ [])

  json_items : {js : Js} → Items js → List String
  json_items nil = []
  json_items (cons v xs) = json_stringify v ∷ json_items xs

  json_fields : {js : Js} → Fields js → List String
  json_fields end = []
  json_fields {js} (field k v fs) =
      concat (js.json_of_text k ∷ ":" ∷ json_stringify v ∷ []) ∷ json_fields fs

-- The parts between brackets, each on a line of its own behind the inner indentation.
abbrev enclosed : String → String → String → String → List String → String
enclosed left right indent inner [] = concat (left ∷ right ∷ [])
enclosed left right indent inner (part ∷ parts) = concat (
    left
    ∷ "\n"
    ∷ inner
    ∷ join (concat (",\n" ∷ inner ∷ [])) (part ∷ parts)
    ∷ "\n"
    ∷ indent
    ∷ right
    ∷ [])

-- `JSON.stringify(value, null, 2)`, at an indentation.
unfoldable mutual
  pub json_indented : {js : Js} → String → Value js → String
  json_indented indent (arr xs) =
      let inner = concat ("  " ∷ indent ∷ []) in
      enclosed "[" "]" indent inner (indented_items inner xs)
  json_indented indent (obj fs) =
      let inner = concat ("  " ∷ indent ∷ []) in
      enclosed "{" "}" indent inner (indented_fields inner fs)
  json_indented indent null = "null"
  json_indented indent (bool true) = "true"
  json_indented indent (bool false) = "false"
  json_indented {js} indent (num n) = js.json_of_number n
  json_indented {js} indent (str s) = js.json_of_text s

  indented_items : {js : Js} → String → Items js → List String
  indented_items indent nil = []
  indented_items indent (cons v xs) = json_indented indent v ∷ indented_items indent xs

  indented_fields : {js : Js} → String → Fields js → List String
  indented_fields indent end = []
  indented_fields {js} indent (field k v fs) =
      concat (js.json_of_text k ∷ ": " ∷ json_indented indent v ∷ []) ∷ indented_fields indent fs
