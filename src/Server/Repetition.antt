-- ===== src/Server/Repetition.antt =====
-- Repeated previews of one action.
use agentguard_action_proxy.Common.{
  ℕ, ◌+◌, ◌≤◌, String, ◌≡◌, refl, false, some, arith, if◌then◌else◌, ◌==◌,
}
use agentguard_action_proxy.Common.Dict.{lookup, lookup-insert, lookup-insert_self}
use agentguard_action_proxy.Js.{Js}
use agentguard_action_proxy.Models.{ActionRequest, PreviewResponse}
use agentguard_action_proxy.Risk.History.{score_risk-history}
use agentguard_action_proxy.Server.State.{Clock, AgentGuardState, previewed}
use agentguard_action_proxy.Server.Preview.{
  attempts, attempt_key, preview_of, preview_audit, post_preview,
}

module _ {js : Js} where
  module _ (clock : Clock) (a : ActionRequest js) (s : AgentGuardState js) where
    abbrev after : AgentGuardState js
    after = (post_preview clock a s).0

    attempts-post_preview : attempts a after ≡ attempts a s + 1
    unfolding post_preview attempts
    attempts-post_preview =
        rw (lookup-insert_self (attempt_key a) (attempts a s + 1) s.attempt_counter, attempts) refl

    -- A preview is kept under the id of its action and counted as an attempt under the key of its
    -- action: every other preview and every other attempt counter stays, and so do the approvals and
    -- the tokens. The log gains the events of this preview.
    pub post_preview_effect :
        ((k : String)
          → lookup k after.previews ≡ (
              if a.action_id == k then some (preview_of a (attempts a s)) else lookup k s.previews))
        × ((k : String)
            → lookup k after.attempt_counter ≡ (
                if attempt_key a == k then some (attempts a s + 1) else lookup k s.attempt_counter))
        × (attempts a after ≡ attempts a s + 1)
        × (after.audit ≡ preview_audit clock a (preview_of a (attempts a s)) s.audit)
        × (after.approvals ≡ s.approvals)
        × (after.tokens ≡ s.tokens)
    unfolding post_preview
    post_preview_effect = (
      λ k. lookup-insert a.action_id k (preview_of a (attempts a s)) s.previews,
      λ k. lookup-insert (attempt_key a) k (attempts a s + 1) s.attempt_counter,
      attempts-post_preview,
      refl,
      refl,
      refl,
    )

  -- The previews of one action after two numbers of attempts.
  preview_of-grows :
      (a : ActionRequest js) (m n : ℕ)
      → m ≤ n
      → ((preview_of a n).risk_score ≤ (preview_of a m).risk_score + 15)
        × ((preview_of a m).risk_score ≤ (preview_of a n).risk_score)
  unfolding preview_of
  preview_of-grows a m n h = let (up, most, _, _) = score_risk-history a m n false h in (most, up)

  -- Asking again for the preview of an action gives the same decision, policies and reason, and a
  -- risk score that is no lower and at most 15 points higher.
  preview_again :
      (first second : Clock) (a : ActionRequest js) (s : AgentGuardState js) (p q : PreviewResponse)
      → (post_preview first a s).1 ≡ previewed p
      → (post_preview second a (post_preview first a s).0).1 ≡ previewed q
      → (q.decision ≡ p.decision)
        × (q.matched_policies ≡ p.matched_policies)
        × (q.reason ≡ p.reason)
        × (p.risk_score ≤ q.risk_score)
        × (q.risk_score ≤ p.risk_score + 15)
  unfolding post_preview preview_of
  preview_again first second a s p q e f =
      let n : ℕ = attempts a s in
      let m : ℕ = attempts a (post_preview first a s).0 in
      let p_is : p ≡ preview_of a n = cc in
      let q_is : q ≡ preview_of a m = cc in
      let (most, up) = preview_of-grows a n m (omega (arith, attempts-post_preview first a s)) in
      rw (p_is, q_is) (refl, refl, refl, up, most)
