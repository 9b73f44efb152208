-- ===== src/Tests/Serving.antt =====
-- Sessions of the server on sample requests.
use agentguard_action_proxy.Common.{
  ◌+◌, String, ◌≡◌, refl, ◌↔◌, ◌⊎◌, false, none, some, [], ◌∷◌, arith, ◌==◌, if◌then◌else◌,
}
use agentguard_action_proxy.Common.Dict.{lookup}
use agentguard_action_proxy.Models.{EphemeralExecutionToken, ExecutionResult}
use agentguard_action_proxy.Token.{mark_used}
use agentguard_action_proxy.Server.Progress.{Outcome, completes}
use agentguard_action_proxy.Audit.{approve as approve_action, deny_approval, get_approval, approved}
use agentguard_action_proxy.Server.State.{
  Clock, AgentGuardState, create_state, preview, approve, execute, token, Reply, started,
  mock_github, previewed, decided, token_issued,
}
use agentguard_action_proxy.Server.Preview.{
  post_preview, preview_audit, preview_of, attempts, attempt_key,
}
use agentguard_action_proxy.Server.Execute.{
  gate, pass_gate, create_executor, validate_and_start, begin_execute,
}
use agentguard_action_proxy.Server.Authorization.{
  HasStarted, IsAuthorised, OnlyLogs, begin_execute_iff, begin_execute_effect,
}
use agentguard_action_proxy.Server.Logging.{Extends, serve-Extends}
use agentguard_action_proxy.Server.Repetition.{post_preview_effect}
use agentguard_action_proxy.Server.Substitution.{substituted-started}
use agentguard_action_proxy.Server.{serve, post_token}
use agentguard_action_proxy.Server.Interleaving.{
  contains, System, boot, observe, after_request, request, Reach, start, next,
}
use agentguard_action_proxy.Server.Interleaving.SingleUse.{IsDistinct, consumed-IsDistinct}
use agentguard_action_proxy.Tests.Decisions.{policy}
use agentguard_action_proxy.Tests.Tokens.{validation}
use agentguard_action_proxy.Tests.Toy.{toy, status_lookup, deletion, safe_loan}

serving : Unit {0}
unfolding policy validation gate pass_gate create_executor validate_and_start begin_execute
    approve_action deny_approval get_approval attempts attempt_key preview_of post_preview
    post_token serve create_state observe after_request boot
serving = tt

abbrev no_result : ExecutionResult toy
no_result = record {
  action_id = none;
  decision = none;
  executed = false;
  message = "";
  executor = "";
  settlement_id = none;
  tx_hash = none;
  ledger_index = none;
  network = none;
  timestamp = none;
}

abbrev noon : Clock
noon n = 1000

abbrev later : Clock
later n = 2000

-- The lookup is previewed, gets a token and is executed.
abbrev session : System toy
session = after_request later "uuid_2" (execute (some (status_lookup, "uuid_1"))) (
    after_request noon "uuid_1" (token "act_1" (some status_lookup))
      (after_request noon "uuid_0" (preview (some status_lookup)) (boot toy)))

session-consumed : session.consumed ≡ "uuid_1" ∷ []
unfolding serving
session-consumed = refl

session-Reach : Reach session
unfolding serving
session-Reach =
    next
      (next (next start (request noon "uuid_0" (preview (some status_lookup)) refl refl))
        (request noon "uuid_1" (token "act_1" (some status_lookup)) refl refl))
      (request later "uuid_2" (execute (some (status_lookup, "uuid_1"))) refl refl)

consumed-IsDistinct_example :
    IsDistinct session.consumed
    × ((k : String) → contains k session.issued ≡ false → contains k session.consumed ≡ false)
consumed-IsDistinct_example = consumed-IsDistinct session-Reach

abbrev ready : AgentGuardState toy
ready =
    (post_token noon "uuid_1" "act_1" status_lookup
      (post_preview noon status_lookup (create_state toy)).0).0

ready-started : (begin_execute later "uuid_1" status_lookup ready).1 ≡ started mock_github
unfolding serving
ready-started = refl

begin_execute_iff_example :
    HasStarted (begin_execute later "uuid_1" status_lookup ready).1
    ↔ IsAuthorised 2000 "uuid_1" status_lookup ready
begin_execute_iff_example = begin_execute_iff later "uuid_1" status_lookup ready

abbrev launched : AgentGuardState toy × Reply toy
launched = begin_execute later "uuid_1" status_lookup ready

begin_execute_effect_example :
    ((¬ HasStarted launched.1) × OnlyLogs ready launched.0)
    ⊎ ((launched.1 ≡ started (create_executor status_lookup))
        × (launched.0.approvals ≡ ready.approvals)
        × (launched.0.previews ≡ ready.previews)
        × (t : EphemeralExecutionToken toy) × (lookup "uuid_1" ready.tokens ≡ some t)
        × ((k : String)
            → lookup k launched.0.tokens
              ≡ (if "uuid_1" == k then some (mark_used t) else lookup k ready.tokens)))
begin_execute_effect_example = begin_execute_effect later "uuid_1" status_lookup ready

serve-Extends_example :
    Extends ready.audit (serve later "uuid_2" (preview (some deletion)) ready).0.audit
serve-Extends_example = serve-Extends later "uuid_2" (preview (some deletion)) ready (λ h. cc)

abbrev previewed_again : AgentGuardState toy
previewed_again = (post_preview later status_lookup ready).0

post_preview_effect_example :
    ((k : String)
      → lookup k previewed_again.previews ≡ (
          if "act_1" == k
          then some (preview_of status_lookup (attempts status_lookup ready))
          else lookup k ready.previews))
    × ((k : String)
        → lookup k previewed_again.attempt_counter ≡ (
            if attempt_key status_lookup == k
            then some (attempts status_lookup ready + 1)
            else lookup k ready.attempt_counter))
    × (attempts status_lookup previewed_again ≡ attempts status_lookup ready + 1)
    × (previewed_again.audit
        ≡ preview_audit later status_lookup
            (preview_of status_lookup (attempts status_lookup ready))
            ready.audit)
    × (previewed_again.approvals ≡ ready.approvals)
    × (previewed_again.tokens ≡ ready.tokens)
post_preview_effect_example = post_preview_effect later status_lookup ready

-- The deletion of a production repository runs on the preview of the lookup.
substituted-started_example :
    (begin_execute later "uuid_1" deletion
      (post_token noon "uuid_1" "act_1" deletion
        (post_preview noon status_lookup (create_state toy)).0).0).1
    ≡ started (create_executor deletion)
unfolding serving
substituted-started_example =
    substituted-started noon noon later "uuid_1" (create_state toy) status_lookup deletion refl refl
      refl (omega arith)

-- The loan is previewed, approved, equipped with a token, executed and answered.
abbrev loan_previewed : AgentGuardState toy × Reply toy
loan_previewed = serve noon "uuid_2" (preview (some safe_loan)) (create_state toy)

abbrev loan_approved : AgentGuardState toy × Reply toy
loan_approved = serve noon "uuid_2" (approve safe_loan.action_id) loan_previewed.0

abbrev loan_equipped : AgentGuardState toy × Reply toy
loan_equipped = serve noon "uuid_1" (token safe_loan.action_id (some safe_loan)) loan_approved.0

completes_example :
    (loan_previewed.1 ≡ previewed (preview_of safe_loan (attempts safe_loan (create_state toy))))
    × (loan_approved.1 ≡ decided safe_loan.action_id approved)
    × (loan_equipped.1 ≡ token_issued "uuid_1")
    × Outcome noon noon noon later later "uuid_1" "uuid_2" safe_loan (create_state toy) no_result
unfolding serving
completes_example =
    completes noon noon noon later later "uuid_1" "uuid_2" safe_loan (create_state toy) no_result
      refl (omega arith)
