-- ===== src/Pages/Html/Markup.antt =====
-- The characters of a page that HTML reads as markup, and what the parts of a page contribute to them.
use agentguard_action_proxy.Common.{
  ℕ, suc, String, Bool, true, ◌||◌, ◌≡◌, refl, sym, inl, inr, Bool-cases, List, [], ◌∷◌, map,
  if◌then◌else◌, arith, ◌∙◌,
}
use Prim.Native.Char.{Char}
use Prim.Native.String
use mathlib.Core.List.{head-eq_of_cons-eq, tail-eq_of_cons-eq}
use text.Mathlib.TextLemmas.{cons-append, nil-append, cons-ne-nil}
use agentguard_action_proxy.Common.Lists.{length}
use agentguard_action_proxy.Pages.Html.{is_char, replace_all, escape_html, each, each_indexed}
use agentguard_action_proxy.Js.{Js}
use agentguard_action_proxy.Pages.Texts.{number_text}
use agentguard_action_proxy.Pages.Html.Escape.{entity, entity-elim, entities, escape_html-entities}

-- The characters of a text that satisfy a test, in their order.
unfoldable pub picked : (Char → Bool) → String → String
picked p String.[] = ""
picked p (String.◌∷◌ c s) = let rest = picked p s in if p c then String.◌∷◌ c rest else rest

-- Angle brackets and quotes: they open and close elements and attribute values.
unfoldable pub is_markup : Char → Bool
unfolding is_char
is_markup c = is_char b'<' c || is_char b'>' c || is_char b'"' c || is_char b'\'' c

abbrev pub markup : String → String
markup s = picked is_markup s

-- `<` alone, which opens every element and closes a script.
abbrev pub angles : String → String
angles s = picked (is_char b'<') s

module _ (p : Char → Bool) where
  pub picked-append :
      (s t : String) → picked p (String.◌++◌ s t) ≡ String.◌++◌ (picked p s) (picked p t)
  unfolding picked
  picked-append String.[] t = rw (nil-append t) (sym (nil-append _))
  picked-append (String.◌∷◌ c s) t =
      rw cons-append (ground (arith, picked-append s t, cons-append c (picked p s) (picked p t)))

  -- Two lists whose elements contribute the same contribute the same.
  pub picked-each {ℓ κ} :
      {A : Type ℓ} {B : Type κ} (f : A → String) (shape : A → B)
      → ((x y : A) → shape x ≡ shape y → picked p (f x) ≡ picked p (f y))
      → (xs ys : List A) → map shape xs ≡ map shape ys
      → picked p (each f xs) ≡ picked p (each f ys)
  unfolding each
  picked-each f shape h [] [] e = refl
  picked-each f shape h [] (y ∷ ys) e = cc
  picked-each f shape h (x ∷ xs) [] e = cc
  picked-each f shape h (x ∷ xs) (y ∷ ys) e =
      rw (picked-append (f x), picked-append (f y))
        (cc (h x y (head-eq_of_cons-eq e), picked-each f shape h xs ys (tail-eq_of_cons-eq e)))

  pub picked-each_any {ℓ} :
      {A : Type ℓ} (f : A → String)
      → ((x y : A) → picked p (f x) ≡ picked p (f y))
      → (xs ys : List A) → length xs ≡ length ys
      → picked p (each f xs) ≡ picked p (each f ys)
  unfolding length each
  picked-each_any f h [] [] e = refl
  picked-each_any f h [] (y ∷ ys) e = absurd (omega (arith, e))
  picked-each_any f h (x ∷ xs) [] e = absurd (omega (arith, e))
  picked-each_any f h (x ∷ xs) (y ∷ ys) e =
      rw (picked-append (f x), picked-append (f y))
        (cc (h x y, picked-each_any f h xs ys (omega (arith, e))))

  pub picked-each_indexed {ℓ} :
      {A : Type ℓ} (f : ℕ → A → String)
      → ((m n : ℕ) (x y : A) → picked p (f m x) ≡ picked p (f n y))
      → (n : ℕ) (xs ys : List A) → length xs ≡ length ys
      → picked p (each_indexed f n xs) ≡ picked p (each_indexed f n ys)
  unfolding length each_indexed
  picked-each_indexed f h n [] [] e = refl
  picked-each_indexed f h n [] (y ∷ ys) e = absurd (omega (arith, e))
  picked-each_indexed f h n (x ∷ xs) [] e = absurd (omega (arith, e))
  picked-each_indexed f h n (x ∷ xs) (y ∷ ys) e =
      rw (picked-append (f n x), picked-append (f n y))
        (cc (h n n x y, picked-each_indexed f h (suc n) xs ys (omega (arith, e))))

markup-entity : (c : Char) → markup (entity c) ≡ ""
unfolding picked is_markup
markup-entity c =
    entity-elim (λ s. markup s ≡ "") c refl refl refl refl refl
      (λ no_lt no_gt no_quot no_apos. rw (no_lt, no_gt, no_quot, no_apos) refl)

markup-entities : (s : String) → markup (entities s) ≡ ""
unfolding entities
markup-entities String.[] = unfold picked in refl
markup-entities (String.◌∷◌ c s) =
    rw (picked-append is_markup (entity c) (entities s), markup-entity c, markup-entities s)
      (nil-append "")

-- Escaped text contributes no markup.
markup-escape_html : (s : String) → markup (escape_html s) ≡ ""
markup-escape_html s = rw escape_html-entities (markup-entities s)

picked-of :
    (p q : Char → Bool)
    → ((c : Char) → q c ≡ true → p c ≡ true)
    → (s : String) → picked p s ≡ ""
    → picked q s ≡ ""
unfolding picked
picked-of p q h String.[] e = refl
picked-of p q h (String.◌∷◌ c s) e =
    let rest = picked-of p q h s in
    elim (Bool-cases (q c)) [
      | inl yes_q ↦ absurd (cons-ne-nil c (picked p s) (rw (h c yes_q) at e))
      | inr no_q ↦ rw no_q (elim (Bool-cases (p c)) [
        | inl yes_p ↦ absurd (cons-ne-nil c (picked p s) (rw yes_p at e))
        | inr no_p ↦ rest (rw no_p at e)
      ])
    ]

-- Numbers are written without markup.
abbrev pub HasPlainNumbers : Js → Type 0
HasPlainNumbers js = (n : ℕ) → markup (number_text js n) ≡ ""

-- A test that picks no more than markup: all of it, or the angle brackets alone.
abbrev pub IsMarkupTest : (Char → Bool) → Type 0
IsMarkupTest p = (c : Char) → p c ≡ true → is_markup c ≡ true

pub angles-IsMarkupTest : IsMarkupTest (is_char b'<')
unfolding is_markup
angles-IsMarkupTest c e = rw e refl

module _ {p : Char → Bool} (test : IsMarkupTest p) where
  pub picked-plain : (s : String) → markup s ≡ "" → picked p s ≡ ""
  picked-plain s e = picked-of is_markup p test s e

  pub picked-escape_html : (s : String) → picked p (escape_html s) ≡ ""
  picked-escape_html s = picked-plain (escape_html s) (markup-escape_html s)

-- Without its opening brackets, text cannot open an element or end a script.
pub angles-replace_all : (s by : String) → angles by ≡ "" → angles (replace_all b'<' by s) ≡ ""
unfolding replace_all picked
angles-replace_all String.[] by e = refl
angles-replace_all (String.◌∷◌ c s) by e = elim (Bool-cases (is_char b'<' c)) [
  | inl yes_c ↦
      rw yes_c
        (picked-append (is_char b'<') by _ ∙ rw (e, angles-replace_all s by e) (nil-append ""))
  | inr no_c ↦ rw (no_c, no_c) (angles-replace_all s by e)
]
