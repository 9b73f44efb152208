-- ===== src/InputControl/Masking.antt =====
-- input-control-demo/src/masking-engine.ts, with `maskValue` of sensitive-data-detector.ts. A text is
-- the list of its UTF-16 code units, which the positions of the findings count.
pub mod Filling
pub mod Regions
pub mod Secrecy
use agentguard_action_proxy.Common.{
  ℕ, zero, suc, ◌+◌, ◌-◌, ◌/◌, ◌%◌, max, min, String, Bool, true, false, not, ◌&&◌, ◌||◌, ◌==◌,
  Option, none, some, List, [], ◌∷◌, ◌++◌, map, if◌then◌else◌, ltb, leb, includes,
}
use agentguard_action_proxy.Common.Lists.{length, keep, take, sort_by}
use agentguard_action_proxy.InputControl.Models.{Finding}
use agentguard_action_proxy.InputControl.PolicyEngine.{contains_text, distinct_texts}
use Prim.Native.Char.{Char, code}
use Prim.Native.String

abbrev pub Text : Type 0
Text = List ℕ

-- The code units of a character: two where its code point is above the basic plane.
unfoldable units_of : ℕ → Text
units_of c =
    if ltb c 65_536
    then c ∷ []
    else (55_296 + (c - 65_536) / 1024) ∷ (56_320 + (c - 65_536) % 1024) ∷ []

unfoldable pub units : String → Text
unfolding units_of
units String.[] = []
units (String.◌∷◌ c s) = units_of (code c) ++ units s

unfoldable pub skip : ℕ → Text → Text
skip zero s = s
skip (suc n) [] = []
skip (suc n) (c ∷ s) = skip n s

-- `text.slice(start, end)`.
unfoldable pub slice : ℕ → ℕ → Text → Text
slice start end s = skip start (take end s)

-- `"*".repeat(n)`.
unfoldable stars : ℕ → Text
stars zero = []
stars (suc n) = b'*' ∷ stars n

abbrev same_unit : ℕ → ℕ → Bool
same_unit a b = leb a b && leb b a

-- `text.split("@")`.
unfoldable split_at_sign : Text → List Text
split_at_sign [] = [] ∷ []
split_at_sign (c ∷ s) =
    let rest = split_at_sign s in if same_unit c b'@' then [] ∷ rest else put_in_front c rest
  where
    put_in_front : ℕ → List Text → List Text
    put_in_front u [] = (u ∷ []) ∷ []
    put_in_front u (p ∷ ps) = (u ∷ p) ∷ ps

-- The first part and the second one, which is written as "undefined" where there is none.
unfoldable mask_email : List Text → Text
unfolding units stars
mask_email [] = []
mask_email (a ∷ rest) =
    take 1 (a ++ units "*")
    ++ stars (max 3 (length a - 1))
    ++ units "@"
    ++ elim rest [ [] ↦ units "undefined" | d ∷ more ↦ d ]

unfoldable mask_value : String → Text → Text
unfolding skip slice split_at_sign mask_email
mask_value type v =
    if type == "EMAIL"
    then mask_email (split_at_sign v)
    else if type == "KR_RRN"
    then units "******-*******"
    else if includes type "KEY" || includes type "TOKEN" || type == "PASSWORD_SECRET"
    then take 3 v ++ units "-************"
    else if leb (length v) 4
    then units "****"
    else take 2 v ++ stars (min 12 (length v - 4)) ++ skip (length v - 2) v

unfoldable type_or : String → Finding → String
type_or other f = elim f.type [ none ↦ other | some t ↦ if t == "" then other else t ]

-- `f.maskedValue || maskValue(f.type || "", raw)`.
unfoldable pub mask_of : Finding → Text → Text
unfolding mask_value type_or
mask_of f raw =
    let computed = mask_value (type_or "" f) raw in
    elim f.masked_value [ none ↦ computed | some m ↦ if m == "" then computed else units m ]

abbrev non_maskable_categories : List String
non_maskable_categories =
    "PROMPT_INJECTION" ∷ "FILE_SAFETY" ∷ "PUBLIC_IDENTIFIER" ∷ "RISK_CONTEXT" ∷ []

-- `f.maskingRequired !== false`.
unfoldable wants_masking : Finding → Bool
wants_masking f = elim f.masking_required [ none ↦ true | some b ↦ b ]

unfoldable pub is_maskable : Finding → Bool
unfolding wants_masking type_or
is_maskable f =
    not (type_or "" f == "PERSON_NAME")
    && wants_masking f
    && not (contains_text f.category non_maskable_categories)
    && not (f.location.source == "file_metadata")
    && ltb f.location.start f.location.end

-- One round of the loop.
unfoldable pub mask_region : Finding → Text → Text
unfolding slice
mask_region f safe =
    take f.location.start safe
    ++ mask_of f (slice f.location.start f.location.end safe)
    ++ skip f.location.end safe

unfoldable pub mask_regions : List Finding → Text → Text
mask_regions [] safe = safe
mask_regions (f ∷ fs) safe = mask_regions fs (mask_region f safe)

-- `b.location.start - a.location.start <= 0`.
abbrev pub starts_later : Finding → Finding → Bool
starts_later a b = leb b.location.start a.location.start

unfoldable pub in_order : List Finding → List Finding
in_order findings = sort_by starts_later (keep is_maskable findings)

abbrev tolerated_types : List String
tolerated_types = "EMAIL" ∷ "PHONE" ∷ "KR_RRN" ∷ "CREDIT_CARD" ∷ "IP_ADDRESS" ∷ []

unfoldable is_residual : Finding → Bool
is_residual f = not (contains_text (type_or "" f) tolerated_types)

-- Without `originalRetained`, which is always false.
pub record MaskingResult : Type 0 where
  pub masking_applied : Bool
  pub masked_types : List String
  pub masked_count : ℕ
  pub safe_text : Text
  pub residual_findings : List Finding

-- `detectSensitiveData`, which is made of regular expressions, is an argument.
unfoldable pub mask_text : (Text → List Finding) → Text → List Finding → MaskingResult
unfolding is_maskable mask_regions in_order is_residual
mask_text detect_sensitive_data text findings =
    let maskable = keep is_maskable findings in
    let safe = mask_regions (in_order findings) text in
    record {
      masking_applied = ltb 0 (length maskable);
      masked_types = distinct_texts [] (map (type_or "UNKNOWN") maskable);
      masked_count = length maskable;
      safe_text = safe;
      residual_findings = keep is_residual (detect_sensitive_data safe);
    }
