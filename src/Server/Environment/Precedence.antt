-- ===== src/Server/Environment/Precedence.antt =====
-- Which value a variable has once the file .env is loaded.
use agentguard_action_proxy.Common.{
  String, ◌≡◌, List, [], ◌∷◌, Option, none, some, ◌==◌, arith, eq_iff, if◌then◌else◌, Option-cases,
  inl, inr,
}
use agentguard_action_proxy.Common.Dict.{Dict, lookup, lookup-insert}
use agentguard_action_proxy.Js.{Js}
use agentguard_action_proxy.Server.Environment.{
  split_lines, assignment, set_default, load_line, load_lines, load_local_env_file,
}

abbrev pub or_else : Option String → Option String → Option String
or_else none b = b
or_else (some a) b = some a

module _ (js : Js) where
  -- The value that the first line of a variable gives it.
  unfoldable pub first_assigned : String → List String → Option String
  first_assigned key [] = none
  first_assigned key (line ∷ lines) =
      let rest = first_assigned key lines in
      elim (assignment js line) [
        | none ↦ rest
        | some entry ↦ if entry.0 == key then some entry.1 else rest
      ]

  -- What a file says of a variable.
  abbrev pub file_value : String → Option String → Option String
  file_value key none = none
  file_value key (some text) = first_assigned key (split_lines text)

  lookup-set_default :
      (set asked value : String) (env : Dict String)
      → lookup asked (set_default js set value env)
        ≡ or_else (lookup asked env) (if set == asked then some value else none)
  unfolding set_default
  lookup-set_default set asked value env =
      ground (arith, lookup-insert set asked value env, eq_iff set asked)

  lookup-load_lines :
      (asked : String) (lines : List String) (env : Dict String)
      → lookup asked (load_lines js lines env)
        ≡ or_else (lookup asked env) (first_assigned asked lines)
  unfolding load_lines load_line first_assigned
  lookup-load_lines asked [] env = ground arith
  lookup-load_lines asked (line ∷ lines) env = elim (Option-cases (assignment js line)) [
    | inl nothing ↦ rw (nothing, load_line, first_assigned) (lookup-load_lines asked lines env)
    | inr ((key, value), sets) ↦
        rw (sets, load_line, first_assigned)
          (ground (
            arith,
            lookup-load_lines asked lines (set_default js key value env),
            lookup-set_default key asked value env,
          ))
  ]

  -- A variable that the environment has before keeps its value. Any other one gets the value of the
  -- first line of the file that sets it, if there is one: later lines of the same variable count for
  -- nothing, and a missing file changes nothing.
  pub load_precedence :
      (asked : String) (file : Option String) (env : Dict String)
      → lookup asked (load_local_env_file js file env)
        ≡ or_else (lookup asked env) (file_value asked file)
  unfolding load_local_env_file
  load_precedence asked none env = ground arith
  load_precedence asked (some text) env = lookup-load_lines asked (split_lines text) env
