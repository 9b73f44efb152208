-- ===== src/Token/History.antt =====
-- A token after any calls of the other operations of the store.
use agentguard_action_proxy.Common.{
  ℕ, ◌+◌, ◌*◌, ◌≤◌, ◌<◌, String, ◌≡◌, ◌≢◌, refl, ◌⊎◌, inl, inr, true, false, none, some, arith,
  eq_iff, eq_refl, ap, ◌∙◌, Bool-cases, Option, ◌==◌,
}
use agentguard_action_proxy.Common.Dict.{lookup, lookup-insert, lookup-insert_self}
use agentguard_action_proxy.Js.{Js}
use agentguard_action_proxy.Models.{ActionRequest, EphemeralExecutionToken}
use agentguard_action_proxy.Token.{
  TokenService, loan_amount, loan_amount_differs, new_token, issue, mark_used, refusal,
  validate_for_execution, clear,
}
use agentguard_action_proxy.Token.Acceptance.{Permits, validate-tokens, validate-accepted}

-- The stores that calls of the service make of one, when none of them issues a token under this id.
pub data Later {js : Js} (id : String) (ts : TokenService js) : TokenService js → Type 0 where
  now_on : Later id ts ts
  issued :
      {us : TokenService js} (now : ℕ) (other : String) (a : ActionRequest js) (ttl : ℕ)
      → Later id ts us
      → other ≢ id
      → Later id ts (issue now other a ttl us)
  validated :
      {us : TokenService js} (now : ℕ) (token_id : String) (a : ActionRequest js)
      → Later id ts us
      → Later id ts (validate_for_execution now token_id a us).tokens
  cleared : {us : TokenService js} → Later id ts us → Later id ts (clear us)

module _ {js : Js} where
  -- What the store holds under an id that was not issued again: nothing, or the token, which may
  -- have been used.
  data Holds (id : String) (t : EphemeralExecutionToken js) (ts : TokenService js) : Type 0 where
    gone : lookup id ts ≡ none → Holds id t ts
    as_it_was : lookup id ts ≡ some t → Holds id t ts
    spent : lookup id ts ≡ some (mark_used t) → Holds id t ts

  lookup-issue :
      (now : ℕ) (id other : String) (a : ActionRequest js) (ttl : ℕ) (ts : TokenService js)
      → other ≢ id
      → lookup id (issue now other a ttl ts) ≡ lookup id ts
  unfolding issue
  lookup-issue now id other a ttl ts differs =
      ground (arith, eq_iff other id, lookup-insert other id (new_token now other a ttl) ts)

  -- A validation leaves what is found under an id, or accepts it and marks it used.
  lookup-validate :
      (id : String) (ts : TokenService js) (now : ℕ) (token_id : String) (a : ActionRequest js)
      → (lookup id (validate_for_execution now token_id a ts).tokens ≡ lookup id ts)
        ⊎ ((u : EphemeralExecutionToken js) × (lookup id ts ≡ some u)
            × Permits now u a
            × (lookup id (validate_for_execution now token_id a ts).tokens ≡ some (mark_used u)))
  lookup-validate id ts now token_id a = elim (validate-tokens now token_id a ts) [
    | inl (_, kept) ↦ inl (ap (lookup id) kept)
    | inr (ok, u, found, after) ↦ elim (Bool-cases (token_id == id)) [
      | inl same ↦
          let (t, e, permits, _) = validate-accepted now token_id a ts ok in
          let t_is : t ≡ u = cc in
          inr (
            u,
            rw (← (eq_iff token_id id).0 same) found,
            rw t_is at permits,
            after id ∙ rw same refl,
          )
      | inr other ↦ inl (after id ∙ rw other refl)
    ]
  ]

  Holds-other :
      {id : String} {t : EphemeralExecutionToken js} {ts us : TokenService js}
      → lookup id us ≡ lookup id ts
      → Holds id t ts
      → Holds id t us
  Holds-other same (gone e) = gone (same ∙ e)
  Holds-other same (as_it_was e) = as_it_was (same ∙ e)
  Holds-other same (spent e) = spent (same ∙ e)

  Holds-used :
      {id : String} {t u : EphemeralExecutionToken js} {ts us : TokenService js}
      → lookup id ts ≡ some u
      → lookup id us ≡ some (mark_used u)
      → Holds id t ts
      → Holds id t us
  unfolding mark_used
  Holds-used found after (gone e) = cc
  Holds-used found after (as_it_was e) = spent (cc)
  Holds-used found after (spent e) = spent (cc)

  Holds-validate :
      (id : String) (t : EphemeralExecutionToken js) (ts : TokenService js) (now : ℕ)
      (token_id : String) (a : ActionRequest js)
      → Holds id t ts
      → Holds id t (validate_for_execution now token_id a ts).tokens
  Holds-validate id t ts now token_id a h = elim (lookup-validate id ts now token_id a) [
    | inl kept ↦ Holds-other kept h
    | inr (u, found, _, after) ↦ Holds-used found after h
  ]

  -- The token under an id after any calls that do not issue it again.
  Later-Holds :
      {id : String} {t : EphemeralExecutionToken js} {ts us : TokenService js}
      → lookup id ts ≡ some t
      → Later id ts us
      → Holds id t us
  unfolding clear lookup
  Later-Holds e now_on = as_it_was e
  Later-Holds e (issued now other a ttl steps differs) =
      Holds-other (lookup-issue now _ other a ttl _ differs) (Later-Holds e steps)
  Later-Holds e (validated now token_id a steps) =
      Holds-validate _ _ _ now token_id a (Later-Holds e steps)
  Later-Holds e (cleared steps) = gone refl

  -- A used token under an id is refused.
  validate_spent :
      (later : ℕ) (id : String) (b : ActionRequest js) (ts : TokenService js)
      → ((u : EphemeralExecutionToken js) × (lookup id ts ≡ some u) × (u.used ≡ true))
        ⊎ (lookup id ts ≡ none)
      → ((validate_for_execution later id b ts).valid ≡ false)
        × (((validate_for_execution later id b ts).reason ≡ "token_already_used")
            ⊎ ((validate_for_execution later id b ts).reason ≡ "token_expired")
            ⊎ ((validate_for_execution later id b ts).reason ≡ "token_not_found"))
  unfolding validate_for_execution refusal
  validate_spent later id b ts (inl (u, e, used)) = ground arith
  validate_spent later id b ts (inr e) = ground arith

  -- Once a token was accepted, no later validation of it accepts it, at whatever time and for
  -- whatever action, after any calls of the service that do not issue its id again: the answer is
  -- that the token was used, has expired, or, after a `clear`, is not there.
  pub validate_once :
      (now later : ℕ) (id : String) (a b : ActionRequest js) (tokens us : TokenService js)
      → (validate_for_execution now id a tokens).valid ≡ true
      → Later id (validate_for_execution now id a tokens).tokens us
      → ((validate_for_execution later id b us).valid ≡ false)
        × (((validate_for_execution later id b us).reason ≡ "token_already_used")
            ⊎ ((validate_for_execution later id b us).reason ≡ "token_expired")
            ⊎ ((validate_for_execution later id b us).reason ≡ "token_not_found"))
  unfolding mark_used
  validate_once now later id a b tokens us ok steps =
      let (t, _, _, stored) = validate-accepted now id a tokens ok in
      let found = ap (lookup id) stored ∙ lookup-insert_self id (mark_used t) tokens in
      validate_spent later id b us (elim (Later-Holds found steps) [
        | gone e ↦ inr e
        | as_it_was e ↦ inl (_, e, refl)
        | spent e ↦ inl (_, e, refl)
      ])

  module _ (now : ℕ) (id : String) (a : ActionRequest js) (ttl : ℕ) (tokens : TokenService js)
      (n : js.Number) (amount : loan_amount a ≡ some n)
      (nan : (m : js.Number) → js.num_eq n m ≡ false) where
    nan_differs : (amount : Option js.Number) → loan_amount_differs js (some n) amount ≡ true
    unfolding loan_amount_differs
    nan_differs none = refl
    nan_differs (some m) = rw (nan m) refl

    unacceptable : (later : ℕ) (b : ActionRequest js) → ¬ Permits later (new_token now id a ttl) b
    unfolding new_token
    unacceptable later b permits =
        let differs = nan_differs (loan_amount b) in
        let agrees = rw amount at permits.same_amount in cc

    abbrev IsUnspent : TokenService js → Type 0
    IsUnspent us = (lookup id us ≡ none) ⊎ (lookup id us ≡ some (new_token now id a ttl))

    IsUnspent-validate :
        (us : TokenService js) (at : ℕ) (token_id : String) (b : ActionRequest js)
        → IsUnspent us
        → IsUnspent (validate_for_execution at token_id b us).tokens
    IsUnspent-validate us at token_id b before = elim (lookup-validate id us at token_id b) [
      | inl kept ↦ rw kept before
      | inr (u, found, permits, after) ↦ elim before [
        | inl missing ↦ cc
        | inr e ↦
            let t_is : u ≡ new_token now id a ttl = cc in
            absurd (unacceptable at b (rw t_is at permits))
      ]
    ]

    -- The token of such a request is never marked used.
    Later-IsUnspent :
        {us : TokenService js} → Later id (issue now id a ttl tokens) us → IsUnspent us
    unfolding issue clear lookup
    Later-IsUnspent now_on = inr (lookup-insert_self id (new_token now id a ttl) tokens)
    Later-IsUnspent (issued at other b life steps differs) =
        rw (lookup-issue at id other b life _ differs) (Later-IsUnspent steps)
    Later-IsUnspent (validated at token_id b steps) =
        IsUnspent-validate _ at token_id b (Later-IsUnspent steps)
    Later-IsUnspent (cleared steps) = inl refl

    -- A request whose loan amount reads as NaN, which equals no number, never gets its own token
    -- accepted, at whatever time and after any calls of the service that do not issue the id again:
    -- until the token expires, the answer is a loan amount mismatch, and after a `clear` that the
    -- token is not there.
    pub validate-issue_nan :
        (later : ℕ) (us : TokenService js)
        → Later id (issue now id a ttl tokens) us
        → ((validate_for_execution later id a us).valid ≡ false)
          × (((lookup id us ≡ none)
                × ((validate_for_execution later id a us).reason ≡ "token_not_found"))
              ⊎ ((now + ttl * 1000 < later)
                  × ((validate_for_execution later id a us).reason ≡ "token_expired"))
              ⊎ ((later ≤ now + ttl * 1000)
                  × ((validate_for_execution later id a us).reason ≡ "loan_amount_mismatch")))
    unfolding validate_for_execution refusal new_token
    validate-issue_nan later us steps = elim (Later-IsUnspent steps) [
      | inl missing ↦ ground arith
      | inr e ↦ ground (
        arith,
        nan_differs (loan_amount a),
        eq_refl a.action_id,
        eq_refl a.action_type,
        eq_refl a.target_resource,
      )
    ]
