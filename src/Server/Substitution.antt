-- ===== src/Server/Substitution.antt =====
-- What ties an execution to the preview of its action.
use agentguard_action_proxy.Common.{◌+◌, ◌*◌, ◌≤◌, String, ◌≡◌, refl, ap, ◌∙◌, some, eq_refl}
use agentguard_action_proxy.Common.Dict.{lookup, lookup-insert_self}
use agentguard_action_proxy.Js.{Js}
use agentguard_action_proxy.Models.{ActionRequest}
use agentguard_action_proxy.Policy.{evaluate_policy}
use agentguard_action_proxy.Token.{default_ttl_seconds, issue, new_token}
use agentguard_action_proxy.Token.Roundtrip.{HasComparableAmount, new_token-Permits}
use agentguard_action_proxy.Audit.{get_approval}
use agentguard_action_proxy.Server.State.{Clock, AgentGuardState, started}
use agentguard_action_proxy.Server.Preview.{post_preview, preview_of, attempts}
use agentguard_action_proxy.Server.Execute.{gate, passed, create_executor, begin_execute}
use agentguard_action_proxy.Server.Authorization.{
  IsAuthorised, gate-IsCleared, begin_execute_cases, refused, ran,
}
use agentguard_action_proxy.Server.{post_token}

module _ {js : Js} where
  -- A request for a token under the action's own id is granted.
  pub record Granted (clock : Clock) (uuid : String) (a : ActionRequest js)
      (s t : AgentGuardState js) : Type 0 where
    pub tokens : t.tokens ≡ issue (clock 0) uuid a default_ttl_seconds s.tokens
    pub previews : t.previews ≡ s.previews
    pub approvals : t.approvals ≡ s.approvals

  pub post_token-Granted :
      (clock : Clock) (uuid : String) (a : ActionRequest js) (s : AgentGuardState js)
      → Granted clock uuid a s (post_token clock uuid a.action_id a s).0
  unfolding post_token
  post_token-Granted clock uuid a s =
      rw (eq_refl a.action_id) (record { tokens = refl; previews = refl; approvals = refl })

module _ {js : Js} (previewing issuing executing : Clock) (uuid : String)
    (s : AgentGuardState js) where
  -- The server after the preview of one action and a token for another one.
  abbrev prepared : ActionRequest js → ActionRequest js → AgentGuardState js
  prepared a b = (post_token issuing uuid b.action_id b (post_preview previewing a s).0).0

  module _ (a b : ActionRequest js) (same : a.action_id ≡ b.action_id) where
    prepared-tokens :
        lookup uuid (prepared a b).tokens ≡ some (new_token (issuing 0) uuid b default_ttl_seconds)
    unfolding issue
    prepared-tokens =
        ap (lookup uuid) (post_token-Granted issuing uuid b _).tokens ∙ lookup-insert_self uuid _ _

    prepared-previews :
        lookup b.action_id (prepared a b).previews ≡ some (preview_of a (attempts a s))
    unfolding post_preview
    prepared-previews =
        ap (lookup b.action_id) (post_token-Granted issuing uuid b _).previews
        ∙ rw (← same) (lookup-insert_self a.action_id (preview_of a (attempts a s)) s.previews)

    prepared-approvals :
        get_approval b.action_id (prepared a b).approvals ≡ get_approval a.action_id s.approvals
    unfolding post_preview
    prepared-approvals =
        ap (get_approval b.action_id) (post_token-Granted issuing uuid b _).approvals ∙ rw (← same)

    prepared-IsAuthorised :
        gate (evaluate_policy a).decision (get_approval a.action_id s.approvals) ≡ passed
        → HasComparableAmount b
        → executing 0 ≤ issuing 0 + default_ttl_seconds * 1000
        → IsAuthorised (executing 0) uuid b (prepared a b)
    unfolding preview_of
    prepared-IsAuthorised open_gate amount alive = record {
      preview = preview_of a (attempts a s);
      previewed = prepared-previews;
      cleared = rw prepared-approvals ((gate-IsCleared _ _).0 open_gate);
      token = new_token (issuing 0) uuid b default_ttl_seconds;
      issued = prepared-tokens;
      permitted =
          new_token-Permits (issuing 0) (executing 0) uuid b default_ttl_seconds alive amount;
    }

  -- Preview an action that passes the gate, ask for a token for another action with the same id, and
  -- execute that one: it runs within the lifetime of the token, whatever the policy says of it.
  pub substituted-started :
      (a b : ActionRequest js)
      → a.action_id ≡ b.action_id
      → gate (evaluate_policy a).decision (get_approval a.action_id s.approvals) ≡ passed
      → HasComparableAmount b
      → executing 0 ≤ issuing 0 + default_ttl_seconds * 1000
      → (begin_execute executing uuid b (prepared a b)).1 ≡ started (create_executor b)
  substituted-started a b same open_gate amount alive =
      elim (begin_execute_cases executing uuid b (prepared a b)) [
        | refused idle unauthorised kept ↦
            absurd (unauthorised (prepared-IsAuthorised a b same open_gate amount alive))
        | ran auth e _ _ _ ↦ e
      ]
