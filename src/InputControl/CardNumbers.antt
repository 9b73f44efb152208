-- ===== src/InputControl/CardNumbers.antt =====
-- input-control-demo/src/sensitive-data-detector.ts, validCard: the check digit of a card number, by
-- which a match of the pattern of card numbers becomes a finding.
pub mod Errors
use agentguard_action_proxy.Common.{
  ℕ, ◌+◌, ◌-◌, ◌*◌, ◌%◌, Bool, false, not, ◌&&◌, ◌||◌, List, [], ◌∷◌, map, if◌then◌else◌, ltb, leb,
}
use agentguard_action_proxy.Common.Lists.{length, keep}
use agentguard_action_proxy.InputControl.Masking.{Text}

unfoldable pub is_digit : ℕ → Bool
is_digit c = leb b'0' c && leb c b'9'

abbrev pub digit_value : ℕ → ℕ
digit_value c = c - b'0'

-- The numbers `+d[i]` of `d = s.replace(/\D/g, '')`.
unfoldable pub digits_of : Text → List ℕ
unfolding is_digit
digits_of s = map digit_value (keep is_digit s)

-- What a digit adds; every second one is doubled.
unfoldable pub doubled : Bool → ℕ → ℕ
doubled alt n = if alt then (if ltb 9 (n * 2) then n * 2 - 9 else n * 2) else n

-- The loop, on the digits from the last one on.
unfoldable pub luhn_sum : Bool → ℕ → List ℕ → ℕ
luhn_sum alt sum [] = sum
luhn_sum alt sum (n ∷ ns) = luhn_sum (not alt) (sum + doubled alt n) ns

-- The list backwards, in front of another one.
unfoldable pub backwards : List ℕ → List ℕ → List ℕ
backwards [] later = later
backwards (n ∷ ns) later = backwards ns (n ∷ later)

unfoldable pub card_sum : List ℕ → ℕ
unfolding luhn_sum backwards
card_sum d = luhn_sum false 0 (backwards d [])

unfoldable pub valid_digits : List ℕ → Bool
unfolding card_sum
valid_digits d = if ltb (length d) 13 || ltb 19 (length d) then false else leb (card_sum d % 10) 0

unfoldable pub valid_card : Text → Bool
unfolding digits_of valid_digits
valid_card s = valid_digits (digits_of s)
