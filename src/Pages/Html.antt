-- ===== src/Pages/Html.antt =====
-- `escapeHtml`, which each file of ts-agentguard/src/assessment that writes HTML declares alike, and
-- the operations on texts that the pages are written with.
pub mod Escape
pub mod Markup
use agentguard_action_proxy.Common.{
  ℕ, suc, String, Bool, true, false, Option, none, some, List, [], ◌∷◌, map, if◌then◌else◌, is_some,
  concat, ◌+◌, ◌==◌,
}
use Prim.Native.Char.{Char, code}
use Prim.Native.Nat.{compare, Ordering}
use Prim.Native.String
use text.Mathlib.Text.{find?}

unfoldable pub is_char : ℕ → Char → Bool
is_char n c = elim (compare (code c) n) [ Ordering.eq ↦ true | _ ↦ false ]

-- `text.replaceAll(old, by)`, where the old text is one character, given by its code.
unfoldable pub replace_all : ℕ → String → String → String
replace_all old by String.[] = ""
replace_all old by (String.◌∷◌ c s) =
    let rest = replace_all old by s in
    if is_char old c then String.◌++◌ by rest else String.◌∷◌ c rest

unfoldable pub escape_html : String → String
unfolding replace_all is_char
escape_html value =
    let amp = replace_all b'&' "&amp;" value in
    let lt = replace_all b'<' "&lt;" amp in
    let gt = replace_all b'>' "&gt;" lt in
    let quot = replace_all b'"' "&quot;" gt in replace_all b'\'' "&#039;" quot

-- `xs.map(f).join("")`.
unfoldable pub each {ℓ} : {A : Type ℓ} → (A → String) → List A → String
each f [] = ""
each f (x ∷ xs) = String.◌++◌ (f x) (each f xs)

-- The same with the place of each element, from a number on.
unfoldable pub each_indexed {ℓ} : {A : Type ℓ} → (ℕ → A → String) → ℕ → List A → String
each_indexed f n [] = ""
each_indexed f n (x ∷ xs) = String.◌++◌ (f n x) (each_indexed f (suc n) xs)

-- `text.replace(old, by)`: the first place where the old text stands.
unfoldable pub replace_first : String → String → String → String
replace_first old by s = elim (find? s old) [
  | none ↦ s
  | some at ↦
      concat (String.slice s 0 at ∷ by ∷ String.slice s (at + String.len old) (String.len s) ∷ [])
]

-- The first of the parts with a text in front.
abbrev pub in_front : String → List String → List String
in_front s [] = s ∷ []
in_front s (p ∷ ps) = String.◌++◌ s p ∷ ps

-- `text.split("\n\n")`: the parts, and the parts behind a line feed that may begin a separator.
unfoldable split_both : String → List String × List String
split_both String.[] = ("" ∷ [], "\n" ∷ [])
split_both (String.◌∷◌ c s) =
    let (parts, waiting) = split_both s in
    let kept = in_front (String.◌∷◌ c "") parts in
    if is_char 10 c then (waiting, "" ∷ parts) else (kept, in_front "\n" kept)

unfoldable pub split_paragraphs : String → List String
unfolding split_both is_char
split_paragraphs s = (split_both s).0
