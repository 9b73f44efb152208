-- ===== src/Fingerprint.antt =====
-- ts-agentguard/src/token-service.ts, the canonical text of a request and its fingerprint.
pub mod Order
use agentguard_action_proxy.Common.{
  String, Bool, true, false, List, [], ◌∷◌, if◌then◌else◌, concat, join, map,
}
use agentguard_action_proxy.Js.{Js}
use agentguard_action_proxy.Js.Value.{
  Value, null, bool, num, str, arr, obj, Items, nil, cons, Fields, end, field,
}
use agentguard_action_proxy.Models.{ActionRequest}

-- `entries.sort(([a], [b]) => a.localeCompare(b))`, which is stable.
module _ (js : Js) where
  unfoldable pub insert_entry : String × String → List (String × String) → List (String × String)
  insert_entry (k, v) [] = (k, v) ∷ []
  insert_entry (k, v) ((j, w) ∷ es) =
      if js.locale_le k j then (k, v) ∷ (j, w) ∷ es else (j, w) ∷ insert_entry (k, v) es

  unfoldable pub sort_entries : List (String × String) → List (String × String)
  unfolding insert_entry
  sort_entries [] = []
  sort_entries (e ∷ es) = insert_entry e (sort_entries es)

  -- `${JSON.stringify(key)}:${nested}`
  unfoldable pub render_entry : String × String → String
  render_entry (k, v) = concat (js.json_of_text k ∷ ":" ∷ v ∷ [])

-- The nested texts are taken before the sort, which looks at the keys alone.
unfoldable mutual
  pub stable_stringify : {js : Js} → Value js → String
  stable_stringify null = "null"
  stable_stringify (bool true) = "true"
  stable_stringify (bool false) = "false"
  stable_stringify {js} (num n) = js.json_of_number n
  stable_stringify {js} (str s) = js.json_of_text s
  stable_stringify (arr xs) = concat ("[" ∷ join "," (stringify_items xs) ∷ "]" ∷ [])
  stable_stringify {js} (obj fs) =
      concat
        ("{" ∷ join "," (map (render_entry js) (sort_entries js (stringify_fields fs))) ∷ "}" ∷ [])

  stringify_items : {js : Js} → Items js → List String
  stringify_items nil = []
  stringify_items (cons v xs) = stable_stringify v ∷ stringify_items xs

  pub stringify_fields : {js : Js} → Fields js → List (String × String)
  stringify_fields end = []
  stringify_fields (field k v fs) = (k, stable_stringify v) ∷ stringify_fields fs

module _ {js : Js} where
  -- What the fingerprint covers: neither the type of the actor nor the time of the request.
  unfoldable pub fingerprint_content : ActionRequest js → Value js
  fingerprint_content a = obj (
      field "action_id" (str a.action_id) (
        field "actor_id" (str a.actor_id) (
          field "action_type" (str a.action_type) (
            field "target_system" (str a.target_system) (
              field "target_resource" (str a.target_resource)
                (field "parameters" (obj a.parameters) (field "context" (obj a.context) end)))))))

  unfoldable pub action_fingerprint : ActionRequest js → String
  action_fingerprint a = js.sha256 (stable_stringify (fingerprint_content a))
