-- ===== src/Server/Interleaving.antt =====
-- The server under any interleaving of requests: `/actions/execute` gives up control while it waits
-- for the executor, and other requests are served meanwhile.
pub mod SingleUse
use agentguard_action_proxy.Common.{
  String, ◌≡◌, Bool, false, true, ◌||◌, ◌==◌, List, [], ◌∷◌, ◌++◌, some,
}
use agentguard_action_proxy.Js.{Js}
use agentguard_action_proxy.Models.{ActionRequest, ExecutionResult}
use agentguard_action_proxy.Server.State.{
  Clock, AgentGuardState, create_state, Request, execute, token, Reply, started, token_issued,
}
use agentguard_action_proxy.Server.Execute.{complete_execute}
use agentguard_action_proxy.Server.{serve}

abbrev pub contains : String → List String → Bool
contains k [] = false
contains k (j ∷ ks) = j == k || contains k ks

module _ (js : Js) where
  -- The server, the executions that wait for their executor, and two records of the past: the
  -- token ids issued, and those with which an execution started.
  pub record System : Type 0 where
    pub server : AgentGuardState js
    pub pending : List (ActionRequest js)
    pub issued : List String
    pub consumed : List String

  unfoldable pub boot : System
  unfolding create_state
  boot = record { server = create_state js; pending = []; issued = []; consumed = [] }

module _ {js : Js} where
  -- What a reply adds to the records.
  unfoldable pub observe : Request js → Reply js → System js → System js
  observe (execute (some (a, token_id))) (started e) s = record s {
    pending = a ∷ s.pending;
    consumed = token_id ∷ s.consumed;
  }
  observe (token action_id (some a)) (token_issued token_id) s = record s {
    issued = token_id ∷ s.issued;
  }
  observe _ _ s = s

  -- The system after a request.
  unfoldable pub after_request : Clock → String → Request js → System js → System js
  after_request clock uuid r s =
      let (server', reply) = serve clock uuid r s.server in
      observe r reply (record s { server = server' })

  -- One step: a request is served, with a UUID that was not drawn before, or one of the waiting
  -- executions gets its result, whatever that is.
  pub data Step (s t : System js) : Type 0 where
    request :
        (clock : Clock) (uuid : String) (r : Request js)
        → contains uuid s.issued ≡ false
        → t ≡ after_request clock uuid r s
        → Step s t
    completion :
        (clock : Clock) (before after : List (ActionRequest js)) (a : ActionRequest js)
        (result : ExecutionResult js)
        → s.pending ≡ before ++ (a ∷ after)
        → t ≡ record s {
          server = complete_execute clock a result s.server;
          pending = before ++ after;
        }
        → Step s t

  pub data Reach : System js → Type 0 where
    start : Reach (boot js)
    next : {s t : System js} → Reach s → Step s t → Reach t
