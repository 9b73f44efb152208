-- ===== src/Pages/Html/Escape.antt =====
-- Escaped text, and what it leaves of the characters that HTML gives a meaning.
use agentguard_action_proxy.Common.{
  ℕ, String, false, ◌≡◌, refl, sym, inl, inr, Bool-cases, if◌then◌else◌, arith, ◌∙◌, ap,
}
use Prim.Native.Char.{Char}
use Prim.Native.String
use text.Mathlib.TextLemmas.{append_assoc, cons-append, nil-append}
use agentguard_action_proxy.Pages.Html.{is_char, replace_all, escape_html}

-- The entity that stands for a character.
unfoldable pub entity : Char → String
entity c =
    if is_char b'&' c
    then "&amp;"
    else if is_char b'<' c
    then "&lt;"
    else if is_char b'>' c
    then "&gt;"
    else if is_char b'"' c
    then "&quot;"
    else if is_char b'\'' c
    then "&#039;"
    else String.◌∷◌ c ""

unfoldable pub entities : String → String
entities String.[] = ""
entities (String.◌∷◌ c s) = String.◌++◌ (entity c) (entities s)

-- What holds of the five entities and of every other character holds of the entity of a character.
pub entity-elim {ℓ} :
    (P : String → Type ℓ) (c : Char)
    → P "&amp;"
    → P "&lt;"
    → P "&gt;"
    → P "&quot;"
    → P "&#039;"
    → (is_char b'<' c ≡ false
        → is_char b'>' c ≡ false
        → is_char b'"' c ≡ false
        → is_char b'\'' c ≡ false
        → P (String.◌∷◌ c ""))
    → P (entity c)
unfolding entity
entity-elim P c amp lt gt quot apos plain = elim (Bool-cases (is_char b'&' c)) [
  | inl a ↦ rw a amp
  | inr no_amp ↦ elim (Bool-cases (is_char b'<' c)) [
    | inl l ↦ rw (no_amp, l) lt
    | inr no_lt ↦ elim (Bool-cases (is_char b'>' c)) [
      | inl g ↦ rw (no_amp, no_lt, g) gt
      | inr no_gt ↦ elim (Bool-cases (is_char b'"' c)) [
        | inl q ↦ rw (no_amp, no_lt, no_gt, q) quot
        | inr no_quot ↦ elim (Bool-cases (is_char b'\'' c)) [
          | inl s ↦ rw (no_amp, no_lt, no_gt, no_quot, s) apos
          | inr no_apos ↦
              rw (no_amp, no_lt, no_gt, no_quot, no_apos) (plain no_lt no_gt no_quot no_apos)
        ]
      ]
    ]
  ]
]

replace_all-append :
    (old : ℕ) (by s t : String)
    → replace_all old by (String.◌++◌ s t)
      ≡ String.◌++◌ (replace_all old by s) (replace_all old by t)
unfolding replace_all
replace_all-append old by String.[] t = rw (nil-append t) (sym (nil-append _))
replace_all-append old by (String.◌∷◌ c s) t = rw cons-append (
    ground (
      arith,
      replace_all-append old by s t,
      cons-append c (replace_all old by s) (replace_all old by t),
      append_assoc by (replace_all old by s) (replace_all old by t),
    ))

-- Each pass changes the character or leaves it for the next one.
escape_html-entity : (c : Char) → escape_html (String.◌∷◌ c "") ≡ entity c
unfolding escape_html entity
escape_html-entity c = elim (Bool-cases (is_char b'&' c)) [
  | inl amp ↦ rw amp refl
  | inr no_amp ↦ elim (Bool-cases (is_char b'<' c)) [
    | inl lt ↦ rw (no_amp, lt) refl
    | inr no_lt ↦ elim (Bool-cases (is_char b'>' c)) [
      | inl gt ↦ rw (no_amp, no_lt, gt) refl
      | inr no_gt ↦ elim (Bool-cases (is_char b'"' c)) [
        | inl quot ↦ rw (no_amp, no_lt, no_gt, quot) refl
        | inr no_quot ↦ rw (no_amp, no_lt, no_gt, no_quot) refl
      ]
    ]
  ]
]

escape_html-append :
    (s t : String) → escape_html (String.◌++◌ s t) ≡ String.◌++◌ (escape_html s) (escape_html t)
unfolding escape_html
escape_html-append s t = simp replace_all-append

-- The five passes of the escape, each over the output of the one before, replace each character of the
-- text by its entity and leave every other character as it is.
pub escape_html-entities : (s : String) → escape_html s ≡ entities s
unfolding entities
escape_html-entities String.[] = unfold escape_html replace_all in refl
escape_html-entities (String.◌∷◌ c s) =
    ap escape_html (sym (cons-append c "" s ∙ ap (String.◌∷◌ c) (nil-append s)))
    ∙ escape_html-append (String.◌∷◌ c "") s
    ∙ cc (escape_html-entity c, escape_html-entities s)
