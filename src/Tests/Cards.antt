-- ===== src/Tests/Cards.antt =====
-- A card number and one with a mistyped digit.
use agentguard_action_proxy.Common.{◌≡◌, refl, true, false, [], ◌∷◌, ◌++◌, arith}
use agentguard_action_proxy.Common.Lists.{length, keep}
use agentguard_action_proxy.InputControl.Masking.{Text, units}
use agentguard_action_proxy.InputControl.CardNumbers.{is_digit, doubled, valid_card}
use agentguard_action_proxy.InputControl.CardNumbers.Errors.{mistyped-valid_card}

abbrev card_start : Text
card_start = units "4111 1111 1111 111"

card_valid : valid_card (card_start ++ b'1' ∷ []) ≡ true
unfolding units valid_card is_digit keep length doubled
card_valid = refl

one_digit : is_digit b'1' ≡ true
unfolding is_digit
one_digit = refl

seven_digit : is_digit b'7' ≡ true
unfolding is_digit
seven_digit = refl

mistyped-valid_card_example : valid_card (card_start ++ b'7' ∷ []) ≡ false
mistyped-valid_card_example =
    mistyped-valid_card card_start [] b'1' b'7' one_digit seven_digit (λ e. omega (arith, e))
      card_valid
