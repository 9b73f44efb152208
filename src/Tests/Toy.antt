-- ===== src/Tests/Toy.antt =====
-- A stand-in for the runtime, with whole numbers and NaN, and sample requests.
use agentguard_action_proxy.Common.{
  ℕ, ◌*◌, ◌/◌, String, Bool, false, ◌==◌, leb, ltb, if◌then◌else◌, ◌≡◌, refl, arith,
}
use agentguard_action_proxy.Js.{Js}
use agentguard_action_proxy.Js.Value.{Fields, end, field, num, str}
use agentguard_action_proxy.Models.{ActionRequest, ai_agent}
use agentguard_action_proxy.Fingerprint.Order.{IsComparison}
use Prim.Native.String.{count}

pub data Num : Type 0 where
  fin : ℕ → Num
  nan : Num

abbrev lift2 {ℓ} : {A : Type ℓ} → (ℕ → ℕ → A) → A → Num → Num → A
lift2 f d (fin a) (fin b) = f a b
lift2 f d _ _ = d

abbrev truthy_num : Num → Bool
truthy_num (fin n) = ltb 0 n
truthy_num nan = false

-- Only the texts that the samples use.
abbrev num_of_text : String → Num
num_of_text s = if s == "500" then fin 500 else nan

-- Keys are compared by their length, numbers are written as one letter, and the digest of a text is
-- the text.
abbrev pub toy : Js
toy = record {
  Number = Num;
  number = fin;
  mul = lift2 (λ a b. fin (a * b)) nan;
  div = lift2 (λ a b. if ltb 0 b then fin (a / b) else nan) nan;
  num_le = lift2 leb false;
  num_lt = lift2 ltb false;
  num_eq = lift2 (λ a b. if leb a b then leb b a else false) false;
  num_truthy = truthy_num;
  number_of_text = num_of_text;
  text_of_number = λ n. "n";
  json_of_number = λ n. "n";
  json_of_text = λ s. s;
  trim = λ s. s;
  to_lower_case = λ s.
      if s == "GREEN"
      then "green"
      else if s == "YELLOW"
      then "yellow"
      else if s == "RED"
      then "red"
      else s;
  to_upper_case = λ s. s;
  locale_le = λ s t. leb (count s) (count t);
  sha256 = λ s. s;
  iso_string = λ n. "t";
}

pub toy-IsComparison : IsComparison toy
toy-IsComparison = record { total = λ s t h. ground arith; trans = λ s t u h k. ground arith }

abbrev pub request : String → String → String → String → Fields toy → Fields toy → ActionRequest toy
request id kind system target parameters context = record {
  action_id = id;
  actor_type = ai_agent;
  actor_id = "agent_1";
  action_type = kind;
  target_system = system;
  target_resource = target;
  parameters = parameters;
  context = context;
  requested_at = 0;
}

abbrev pub status_lookup : ActionRequest toy
status_lookup = request "act_1" "github.get_repository_status" "github" "repo" end end

-- A deletion of a production repository, under the id of the lookup.
abbrev pub deletion : ActionRequest toy
deletion = request "act_1" "github.delete_repository" "github" "production-repo" end end

abbrev pub loan : Fields toy → Fields toy → ActionRequest toy
loan = request "act_2" "BORROW_RLUSD_AGAINST_KGLD" "settlement_orchestrator" "kgld:vault_gold_001"

-- 500 RLUSD against 1000 RLUSD of gold.
abbrev pub safe_loan : ActionRequest toy
safe_loan =
    loan
      (field "collateralAmountKGLD" (num (fin 1000)) (field "loanAmountRLUSD" (num (fin 500)) end))
      (field "ltv" (num (fin 50)) end)

abbrev pub bare_loan : ActionRequest toy
bare_loan = loan (field "loanAmountRLUSD" (num (fin 1_000_000)) end) end

-- A loan amount that is no number, against 1000 RLUSD of gold.
abbrev pub garbled_loan : ActionRequest toy
garbled_loan =
    loan (field "loanAmountRLUSD" (str "lots") end)
      (field "collateralValueRLUSD" (num (fin 1000)) end)

abbrev pub purchase : Fields toy → ActionRequest toy
purchase parameters =
    request "act_3" "BUY_GOLD" "settlement_orchestrator" "gold:vault_7"
      (field "currency" (str "XRP") parameters) end

abbrev pub large_purchase : ActionRequest toy
large_purchase = purchase (field "goldAmountGrams" (num (fin 500)) end)

abbrev pub garbled_purchase : ActionRequest toy
garbled_purchase = purchase (field "goldAmountGrams" (str "5 tons") end)

pub not-lt_nan : (m : Num) → toy.num_lt m nan ≡ false
not-lt_nan (fin n) = refl
not-lt_nan nan = refl
