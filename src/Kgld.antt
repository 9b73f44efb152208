-- ===== src/Kgld.antt =====
-- ts-agentguard/src/kgld.ts: loans in RLUSD against tokenised gold.
use agentguard_action_proxy.Common.{
  String, Bool, ◌==◌, if◌then◌else◌, starts_with, slice_from, or_text,
}
use agentguard_action_proxy.Js.{Js}
use agentguard_action_proxy.Js.Value.{
  Fields, end, field, num, str, get, nullish_or, number_parameter, string_parameter,
}
use agentguard_action_proxy.Models.{ActionRequest}

abbrev borrow_rlusd_against_kgld_action_type : String
borrow_rlusd_against_kgld_action_type = "BORROW_RLUSD_AGAINST_KGLD"

module _ (js : Js) where
  pub record KgldLendingDetails : Type 0 where
    pub collateral_amount_kgld : js.Number
    pub kgld_price_rlusd : js.Number
    pub loan_amount_rlusd : js.Number
    pub collateral_value_rlusd : js.Number
    pub ltv : js.Number
    pub vault_id : String
    pub collateral_asset : String
    pub liquidity_asset : String

-- `a || b` on numbers.
abbrev or_number : (js : Js) → js.Number → js.Number → js.Number
or_number js a b = if js.num_truthy a then a else b

module _ {js : Js} where
  unfoldable pub is_kgld_lending_action : ActionRequest js → Bool
  is_kgld_lending_action a = a.action_type == borrow_rlusd_against_kgld_action_type

  unfoldable pub collateral_value : ActionRequest js → js.Number
  collateral_value a = or_number js (number_parameter (get "collateralValueRLUSD" a.context)) (
      js.mul (number_parameter (get "collateralAmountKGLD" a.parameters))
        (number_parameter (get "kgldPriceRLUSD" a.parameters)))

  -- The loan-to-value ratio in percent: the context's, or else the computed one, which is 0 where
  -- there is no collateral.
  unfoldable pub loan_to_value : ActionRequest js → js.Number
  loan_to_value a = or_number js (number_parameter (get "ltv" a.context)) (
      if js.num_lt (js.number 0) (collateral_value a)
      then js.mul
          (js.div (number_parameter (get "loanAmountRLUSD" a.parameters)) (collateral_value a))
          (js.number 100)
      else js.number 0)

  unfoldable pub kgld_vault_id : ActionRequest js → String
  kgld_vault_id a =
      or_text (string_parameter (nullish_or (get "vaultId" a.context) (get "vaultId" a.parameters)))
        (if starts_with a.target_resource "kgld:" then slice_from a.target_resource 5 else "")

  unfoldable pub get_kgld_lending_details : ActionRequest js → KgldLendingDetails js
  get_kgld_lending_details a = record {
    collateral_amount_kgld = number_parameter (get "collateralAmountKGLD" a.parameters);
    kgld_price_rlusd = number_parameter (get "kgldPriceRLUSD" a.parameters);
    loan_amount_rlusd = number_parameter (get "loanAmountRLUSD" a.parameters);
    collateral_value_rlusd = collateral_value a;
    ltv = loan_to_value a;
    vault_id = kgld_vault_id a;
    collateral_asset = or_text (string_parameter (get "collateralAsset" a.context)) "KGLD";
    liquidity_asset = or_text (string_parameter (get "liquidityAsset" a.context)) "RLUSD";
  }

  details_fields : KgldLendingDetails js → Fields js
  details_fields d = field "collateralAmountKGLD" (num d.collateral_amount_kgld) (
      field "kgldPriceRLUSD" (num d.kgld_price_rlusd) (
        field "loanAmountRLUSD" (num d.loan_amount_rlusd) (
          field "collateralValueRLUSD" (num d.collateral_value_rlusd) (
            field "ltv" (num d.ltv) (
              field "vaultId" (str d.vault_id) (
                field "collateralAsset" (str d.collateral_asset)
                  (field "liquidityAsset" (str d.liquidity_asset) end)))))))

  unfoldable pub kgld_audit_fields : ActionRequest js → Fields js
  unfolding details_fields
  kgld_audit_fields a =
      if is_kgld_lending_action a then details_fields (get_kgld_lending_details a) else end
