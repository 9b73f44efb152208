-- ===== src/Server/Interleaving/SingleUse.antt =====
-- How often a token starts an execution.
use agentguard_action_proxy.Common.{
  String, ◌≡◌, refl, sym, subst, inl, inr, false, true, ◌==◌, List, [], ◌∷◌, Option, none, some,
  arith, eq_iff, Bool-cases,
}
use agentguard_action_proxy.Common.Dict.{lookup, insert, lookup-insert}
use agentguard_action_proxy.Js.{Js}
use agentguard_action_proxy.Models.{ActionRequest, EphemeralExecutionToken}
use agentguard_action_proxy.Token.{mark_used, new_token, issue, clear, TokenService}
use agentguard_action_proxy.Server.State.{
  Clock, create_state, Request, preview, approve, deny, execute, token, audit, audit_event, reset,
  Reply, started,
}
use agentguard_action_proxy.Server.Preview.{post_preview}
use agentguard_action_proxy.Server.Execute.{complete_execute, begin_execute}
use agentguard_action_proxy.Server.Authorization.{HasStarted, begin_execute_cases, refused, ran}
use agentguard_action_proxy.Server.{
  serve, post_token, post_approve, post_deny, post_audit_event, post_reset,
}
use agentguard_action_proxy.Server.Interleaving.{
  contains, System, boot, observe, after_request, Step, request, completion, Reach, start, next,
}

abbrev pub IsDistinct : List String → Type 0
IsDistinct [] = Unit
IsDistinct (k ∷ ks) = (contains k ks ≡ false) × IsDistinct ks

module _ {js : Js} where
  -- A token that is gone or used up.
  abbrev IsSpent : Option (EphemeralExecutionToken js) → Type 0
  IsSpent none = Unit
  IsSpent (some t) = t.used ≡ true

  -- The tokens in the store against the records of issued and consumed ids.
  record Accounts (tokens : TokenService js) (issued consumed : List String) : Type 0 where
    distinct : IsDistinct consumed
    spent : (k : String) → contains k consumed ≡ true → IsSpent (lookup k tokens)
    known : (k : String) → contains k issued ≡ false → lookup k tokens ≡ none
    recorded : (k : String) → contains k issued ≡ false → contains k consumed ≡ false

  module _ {tokens : TokenService js} {issued consumed : List String}
      (acc : Accounts tokens issued consumed) where
    Accounts-clear : Accounts (clear tokens) issued consumed
    unfolding clear lookup
    Accounts-clear = record {
      distinct = acc.distinct;
      spent = λ k h. tt;
      known = λ k h. refl;
      recorded = acc.recorded;
    }

    Accounts-issue :
        (uuid : String) (t : EphemeralExecutionToken js)
        → contains uuid issued ≡ false
        → Accounts (insert uuid t tokens) (uuid ∷ issued) consumed
    Accounts-issue uuid t fresh = record {
      distinct = acc.distinct;
      spent = λ k h. elim (Bool-cases (uuid == k)) [
        | inl same ↦ cc ((eq_iff uuid k).0 same, acc.recorded uuid fresh)
        | inr other ↦ rw (lookup-insert uuid k t tokens, other) (acc.spent k h)
      ];
      known = λ k h.
          let other : (uuid == k) ≡ false = ground arith in
          rw (lookup-insert uuid k t tokens, other) (acc.known k (ground arith));
      recorded = λ k h. acc.recorded k (ground arith);
    }

    module _ (id : String) (t : EphemeralExecutionToken js)
        (listed : lookup id tokens ≡ some t) where
      unissued_apart : (k : String) → contains k issued ≡ false → (id == k) ≡ false
      unissued_apart k h = elim (Bool-cases (id == k)) [
        | inl same ↦ cc ((eq_iff id k).0 same, acc.known k h)
        | inr other ↦ other
      ]

      unconsumed : t.used ≡ false → contains id consumed ≡ false
      unconsumed unused = elim (Bool-cases (contains id consumed)) [
        | inl c ↦ let used : IsSpent (some t) = subst IsSpent listed (acc.spent id c) in cc
        | inr new ↦ new
      ]

      Accounts-consume :
          t.used ≡ false → Accounts (insert id (mark_used t) tokens) issued (id ∷ consumed)
      unfolding mark_used
      Accounts-consume unused = record {
        distinct = (unconsumed unused, acc.distinct);
        spent = λ k h. elim (Bool-cases (id == k)) [
          | inl same ↦ rw (lookup-insert id k (mark_used t) tokens, same) refl
          | inr other ↦
              rw (lookup-insert id k (mark_used t) tokens, other) (acc.spent k (rw other at h))
        ];
        known =
            λ k h. rw (lookup-insert id k (mark_used t) tokens, unissued_apart k h) (acc.known k h);
        recorded = λ k h. rw (unissued_apart k h) (acc.recorded k h);
      }

  abbrev Inv : System js → Type 0
  Inv s = Accounts s.server.tokens s.issued s.consumed

  boot-Inv : Inv (boot js)
  unfolding boot create_state lookup
  boot-Inv = record {
    distinct = tt;
    spent = λ k h. cc;
    known = λ k h. refl;
    recorded = λ k h. refl;
  }

  -- An execution that does not start is not recorded.
  idle-observe :
      (a : ActionRequest js) (id : String) (s : System js) (reply : Reply js)
      → ¬ HasStarted reply
      → observe (execute (some (a, id))) reply s ≡ s
  unfolding observe
  idle-observe a id s (started e) idle = absurd (idle (e, refl))
  idle-observe a id s _ idle = refl

  execute-Inv :
      (clock : Clock) (uuid id : String) (a : ActionRequest js) (s : System js)
      → Inv s
      → Inv (after_request clock uuid (execute (some (a, id))) s)
  unfolding after_request observe serve
  execute-Inv clock uuid id a s inv = elim (begin_execute_cases clock id a s.server) [
    | refused idle _ kept ↦
        subst Inv (sym (idle-observe a id _ (begin_execute clock id a s.server).1 idle))
          (rw kept.tokens inv)
    | ran auth e tokens _ _ ↦
        rw (e, tokens) (Accounts-consume inv id auth.token auth.issued auth.permitted.fresh)
  ]

  token-Inv :
      (clock : Clock) (uuid id : String) (a : ActionRequest js) (s : System js)
      → contains uuid s.issued ≡ false
      → Inv s
      → Inv (after_request clock uuid (token id (some a)) s)
  unfolding after_request observe serve post_token new_token issue
  token-Inv clock uuid id a s fresh inv = elim (Bool-cases (id == a.action_id)) [
    | inl same ↦ rw same (Accounts-issue inv uuid _ fresh)
    | inr other ↦ rw other inv
  ]

  request-Inv :
      (clock : Clock) (uuid : String) (r : Request js) (s : System js)
      → contains uuid s.issued ≡ false
      → Inv s
      → Inv (after_request clock uuid r s)
  unfolding after_request observe serve
  request-Inv clock uuid (preview none) s fresh inv = inv
  request-Inv clock uuid (preview (some a)) s fresh inv = unfold post_preview in inv
  request-Inv clock uuid (approve id) s fresh inv = unfold post_approve in inv
  request-Inv clock uuid (deny id) s fresh inv = unfold post_deny in inv
  request-Inv clock uuid (execute none) s fresh inv = inv
  request-Inv clock uuid (execute (some (a, id))) s fresh inv = execute-Inv clock uuid id a s inv
  request-Inv clock uuid (token id none) s fresh inv = inv
  request-Inv clock uuid (token id (some a)) s fresh inv = token-Inv clock uuid id a s fresh inv
  request-Inv clock uuid audit s fresh inv = inv
  request-Inv clock uuid (audit_event body) s fresh inv = unfold post_audit_event in inv
  request-Inv clock uuid reset s fresh inv = unfold post_reset in Accounts-clear inv

  Step-Inv : {s t : System js} → Step s t → Inv s → Inv t
  unfolding complete_execute
  Step-Inv {s} (request clock uuid r fresh e) inv =
      subst Inv (sym e) (request-Inv clock uuid r s fresh inv)
  Step-Inv (completion clock before after a result e f) inv = subst Inv (sym f) inv

  Reach-Inv : {s : System js} → Reach s → Inv s
  Reach-Inv start = boot-Inv
  Reach-Inv (next r st) = Step-Inv st (Reach-Inv r)

  -- Whatever requests are served in whatever order, resets of the server and waiting executions in
  -- between, no token id starts more than one execution, and none starts one that the server did not
  -- issue, provided that no UUID is drawn twice.
  pub consumed-IsDistinct :
      {s : System js}
      → Reach s
      → IsDistinct s.consumed
        × ((k : String) → contains k s.issued ≡ false → contains k s.consumed ≡ false)
  consumed-IsDistinct r = ((Reach-Inv r).distinct, (Reach-Inv r).recorded)
