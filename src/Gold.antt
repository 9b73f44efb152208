-- ===== src/Gold.antt =====
-- ts-agentguard/src/gold.ts: purchases of vaulted gold.
use agentguard_action_proxy.Common.{
  String, Bool, Option, none, some, ◌==◌, if◌then◌else◌, starts_with, slice_from, or_text,
}
use agentguard_action_proxy.Js.{Js}
use agentguard_action_proxy.Js.Value.{
  Value, Fields, end, field, num, str, get, nullish_or, number_parameter, string_parameter, text_of,
}
use agentguard_action_proxy.Models.{ActionRequest}

abbrev buy_gold_action_type : String
buy_gold_action_type = "BUY_GOLD"

abbrev pub gold_allowed_currency : String
gold_allowed_currency = "XRP"

abbrev pub gold_target_prefix : String
gold_target_prefix = "gold:vault_"

module _ (js : Js) where
  pub record GoldActionDetails : Type 0 where
    pub gold_amount_grams : js.Number
    pub vault_id : String
    pub currency : String

-- `String(value ?? "")`.
abbrev text_or_empty : {js : Js} → Option (Value js) → String
text_or_empty none = ""
text_or_empty (some v) = text_of v

module _ {js : Js} where
  unfoldable pub is_buy_gold_action : ActionRequest js → Bool
  is_buy_gold_action a = a.action_type == buy_gold_action_type

  unfoldable pub get_gold_action_details : ActionRequest js → GoldActionDetails js
  get_gold_action_details a = record {
    gold_amount_grams =
        number_parameter
          (nullish_or (get "goldAmountGrams" a.parameters) (get "gold_amount_grams" a.parameters));
    vault_id =
        or_text
          (string_parameter (nullish_or (get "vaultId" a.parameters) (get "vault_id" a.parameters)))
          (if starts_with a.target_resource "gold:" then slice_from a.target_resource 5 else "");
    currency = js.to_upper_case (
        text_or_empty (
          nullish_or (get "settlementCurrency" a.parameters)
            (nullish_or (get "currency" a.parameters) none)));
  }

  unfoldable pub gold_audit_fields : ActionRequest js → Fields js
  gold_audit_fields a =
      if is_buy_gold_action a
      then (let d = get_gold_action_details a in
          field "goldAmountGrams" (num d.gold_amount_grams) (field "vaultId" (str d.vault_id) end))
      else end
