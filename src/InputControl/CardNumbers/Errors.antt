-- ===== src/InputControl/CardNumbers/Errors.antt =====
-- Which mistakes in a card number the check digit shows.
use agentguard_action_proxy.Common.{
  ℕ, ◌+◌, ◌%◌, ◌≤◌, Bool, true, false, not, ◌≡◌, ◌≢◌, refl, sym, ap, ◌∙◌, List, [], ◌∷◌, ◌++◌,
  arith, Bool-cases, inl, inr,
}
use agentguard_action_proxy.Common.Lists.{keep}
use agentguard_action_proxy.InputControl.Masking.{Text}
use agentguard_action_proxy.InputControl.CardNumbers.{
  is_digit, digit_value, digits_of, doubled, luhn_sum, backwards, card_sum, valid_digits,
  valid_card,
}
use mathlib.Core.List.{append_assoc}

digits_of-append : (s t : Text) → digits_of (s ++ t) ≡ digits_of s ++ digits_of t
unfolding digits_of keep
digits_of-append [] t = refl
digits_of-append (c ∷ s) t = elim (Bool-cases (is_digit c)) [
  | inl e ↦ rw e (ap (λ ds. digit_value c ∷ ds) (digits_of-append s t))
  | inr e ↦ rw e (digits_of-append s t)
]

backwards-append : (p q later : List ℕ) → backwards (p ++ q) later ≡ backwards q (backwards p later)
unfolding backwards
backwards-append [] q later = refl
backwards-append (n ∷ p) q later = backwards-append p q (n ∷ later)

backwards-front : (p later : List ℕ) → backwards p later ≡ backwards p [] ++ later
unfolding backwards
backwards-front [] later = refl
backwards-front (n ∷ p) later =
    backwards-front p (n ∷ later)
    ∙ sym (
        ap (λ ns. ns ++ later) (backwards-front p (n ∷ []))
        ∙ append_assoc (backwards p []) (n ∷ []) later)

-- Whether the next digit is doubled.
alternates : Bool → List ℕ → Bool
alternates alt [] = alt
alternates alt (n ∷ ns) = alternates (not alt) ns

luhn_sum-append :
    (alt : Bool) (sum : ℕ) (p q : List ℕ)
    → luhn_sum alt sum (p ++ q) ≡ luhn_sum (alternates alt p) (luhn_sum alt sum p) q
unfolding luhn_sum alternates
luhn_sum-append alt sum [] q = refl
luhn_sum-append alt sum (n ∷ p) q = luhn_sum-append (not alt) (sum + doubled alt n) p q

luhn_sum-start : (alt : Bool) (sum : ℕ) (p : List ℕ) → luhn_sum alt sum p ≡ sum + luhn_sum alt 0 p
unfolding luhn_sum
luhn_sum-start alt sum [] = omega arith
luhn_sum-start alt sum (n ∷ p) =
    let here = luhn_sum-start (not alt) (sum + doubled alt n) p in
    let there = luhn_sum-start (not alt) (0 + doubled alt n) p in omega (arith, here, there)

doubled-le : (alt : Bool) (n : ℕ) → n ≤ 9 → doubled alt n ≤ 9
unfolding doubled
doubled-le alt n h = ground arith

doubled-injective : (alt : Bool) (m n : ℕ) → m ≤ 9 → n ≤ 9 → doubled alt m ≡ doubled alt n → m ≡ n
unfolding doubled
doubled-injective true m n hm hn e = ground arith
doubled-injective false m n hm hn e = e

-- The part of a digit in the sum depends only on what stands around it.
card_sum-split :
    (p q : List ℕ) (d : ℕ)
    → card_sum (p ++ d ∷ q)
      ≡ luhn_sum false 0 (backwards q [])
        + doubled (alternates false (backwards q [])) d
        + luhn_sum (not (alternates false (backwards q []))) 0 (backwards p [])
unfolding card_sum luhn_sum backwards
card_sum-split p q d =
    let behind = backwards q [] in
    let order : backwards (p ++ d ∷ q) [] ≡ behind ++ (d ∷ backwards p []) =
      backwards-append p (d ∷ q) [] ∙ backwards-front q (d ∷ backwards p []) in
    ap (luhn_sum false 0) order
    ∙ luhn_sum-append false 0 behind (d ∷ backwards p [])
    ∙ luhn_sum-start (not (alternates false behind))
        (luhn_sum false 0 behind + doubled (alternates false behind) d) (backwards p [])

valid_digits-sum : (ds : List ℕ) → valid_digits ds ≡ true → card_sum ds % 10 ≡ 0
unfolding valid_digits
valid_digits-sum ds h = ground arith

same_rest : (a b x y : ℕ) → x ≤ 9 → y ≤ 9 → (a + x + b) % 10 ≡ 0 → (a + y + b) % 10 ≡ 0 → x ≡ y
same_rest a b x y hx hy ex ey = omega arith

-- At one place, only one digit is valid.
valid_digits_unique :
    (p q : List ℕ) (m n : ℕ)
    → m ≤ 9
    → n ≤ 9
    → valid_digits (p ++ m ∷ q) ≡ true
    → valid_digits (p ++ n ∷ q) ≡ true
    → m ≡ n
valid_digits_unique p q m n hm hn vm vn =
    let alt = alternates false (backwards q []) in
    let sum_m = sym (ap (λ s. s % 10) (card_sum-split p q m)) ∙ valid_digits-sum (p ++ m ∷ q) vm in
    let sum_n = sym (ap (λ s. s % 10) (card_sum-split p q n)) ∙ valid_digits-sum (p ++ n ∷ q) vn in
    doubled-injective alt m n hm hn (
      same_rest (luhn_sum false 0 (backwards q [])) (luhn_sum (not alt) 0 (backwards p []))
        (doubled alt m) (doubled alt n) (doubled-le alt m hm) (doubled-le alt n hn) sum_m sum_n)

digits_of-digit :
    (t : Text) (c : ℕ) → is_digit c ≡ true → digits_of (c ∷ t) ≡ digit_value c ∷ digits_of t
unfolding digits_of keep
digits_of-digit t c h = rw h refl

digits_of-middle :
    (s t : Text) (c : ℕ)
    → is_digit c ≡ true
    → digits_of (s ++ c ∷ t) ≡ digits_of s ++ digit_value c ∷ digits_of t
digits_of-middle s t c h =
    digits_of-append s (c ∷ t) ∙ ap (λ ds. digits_of s ++ ds) (digits_of-digit t c h)

digit_value-le : (c : ℕ) → is_digit c ≡ true → digit_value c ≤ 9
unfolding is_digit
digit_value-le c h = ground arith

digit_value-injective :
    (c e : ℕ) → is_digit c ≡ true → is_digit e ≡ true → digit_value c ≡ digit_value e → c ≡ e
unfolding is_digit
digit_value-injective c e hc he h = ground arith

-- A card number in which one digit is mistyped is not valid, wherever it stands and whatever stands
-- between the digits.
pub mistyped-valid_card :
    (s t : Text) (c e : ℕ)
    → is_digit c ≡ true
    → is_digit e ≡ true
    → c ≢ e
    → valid_card (s ++ c ∷ t) ≡ true
    → valid_card (s ++ e ∷ t) ≡ false
unfolding valid_card
mistyped-valid_card s t c e hc he differ valid = elim (Bool-cases (valid_card (s ++ e ∷ t))) [
  | inl both ↦ absurd (
      differ (
        digit_value-injective c e hc he (
          valid_digits_unique (digits_of s) (digits_of t) (digit_value c) (digit_value e)
            (digit_value-le c hc) (digit_value-le e he)
            (ap valid_digits (sym (digits_of-middle s t c hc)) ∙ valid)
            (ap valid_digits (sym (digits_of-middle s t e he)) ∙ both))))
  | inr invalid ↦ invalid
]
