-- ===== src/Server/Environment.antt =====
-- ts-agentguard/src/server.ts, `loadLocalEnvFile`: the variables that the file .env adds to the
-- environment of the process.
pub mod Precedence
use agentguard_action_proxy.Common.{
  ℕ, ◌+◌, ◌-◌, String, Bool, true, false, not, ◌&&◌, ◌||◌, List, [], ◌∷◌, Option, none, some, ◌==◌,
  leb, if◌then◌else◌, starts_with, ends_with, includes, slice_from,
}
use agentguard_action_proxy.Common.Dict.{Dict, lookup, insert}
use agentguard_action_proxy.Js.{Js}
use agentguard_action_proxy.Pages.Html.{is_char, in_front}
use Prim.Native.Char.{Char}
use Prim.Native.String
use text.Mathlib.Text.{find?}

-- `text.split(/\r?\n/)`.
unfoldable pub split_lines : String → List String
unfolding is_char
split_lines String.[] = "" ∷ []
split_lines (String.◌∷◌ c s) =
    let rest = split_lines s in
    if is_char 10 c
    then "" ∷ rest
    else if is_char 13 c && starts_with s "\n"
    then rest
    else in_front (String.◌∷◌ c "") rest

-- The text between two quotes of one kind, as `/^(["'])(.*)\1$/` matches it: the dot matches no line
-- terminator.
unfoldable pub quoted : String → String → Option String
quoted quote value =
    let inner = String.slice value 1 (String.len value - 1) in
    let terminators =
      includes inner "\r" || includes inner "\u{2028}" || includes inner "\u{2029}" in
    if starts_with value quote
      && ends_with value quote
      && leb 2 (String.len value)
      && not terminators
    then some inner
    else none

-- `value.replace(/^(["'])(.*)\1$/, "$2")`
unfoldable pub strip_quotes : String → String
unfolding quoted
strip_quotes value = elim (quoted "\"" value) [
  | some inner ↦ inner
  | none ↦ elim (quoted "'" value) [ some inner ↦ inner | none ↦ value ]
]

module _ (js : Js) where
  -- The variable that a line sets and its value: neither an empty line, nor a comment, nor a line
  -- without `=` sets one.
  unfoldable pub assignment : String → Option (String × String)
  unfolding strip_quotes
  assignment line =
      let trimmed = js.trim line in
      if trimmed == "" || starts_with trimmed "#" then none else elim (find? trimmed "=") [
        | none ↦ none
        | some at ↦ some (
          js.trim (String.slice trimmed 0 at),
          strip_quotes (js.trim (slice_from trimmed (at + 1))),
        )
      ]

  -- `process.env[key] ??= value`
  unfoldable pub set_default : String → String → Dict String → Dict String
  set_default key value env = elim (lookup key env) [ none ↦ insert key value env | some _ ↦ env ]

  unfoldable pub load_line : String → Dict String → Dict String
  load_line line env = elim (assignment line) [
    | none ↦ env
    | some entry ↦ set_default entry.0 entry.1 env
  ]

  unfoldable pub load_lines : List String → Dict String → Dict String
  load_lines [] env = env
  load_lines (line ∷ lines) env = load_lines lines (load_line line env)

  -- A file that does not exist is `none`.
  unfoldable pub load_local_env_file : Option String → Dict String → Dict String
  load_local_env_file none env = env
  load_local_env_file (some text) env = load_lines (split_lines text) env
