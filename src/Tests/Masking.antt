-- ===== src/Tests/Masking.antt =====
-- Masking and inspection of sample texts.
use agentguard_action_proxy.Common.{
  ℕ, zero, suc, ◌≡◌, ◌≤◌, refl, inl, inr, String, true, false, none, some, List, [], ◌∷◌, arith,
}
use agentguard_action_proxy.Common.Lists.{length, keep, take, sort_by}
use agentguard_action_proxy.Common.Lists.Sorting.{In}
use agentguard_action_proxy.InputControl.Models.{block, critical, contributes, Finding}
use agentguard_action_proxy.InputControl.PolicyEngine.{contains_text}
use agentguard_action_proxy.InputControl.DestinationRisks.{
  external_api, Destination, has_category, has_secret, is_untrusted,
}
use agentguard_action_proxy.InputControl.CompositeRisks.{has_any, has_type}
use agentguard_action_proxy.InputControl.DestinationRisks.Secrets.{IsLeak}
use agentguard_action_proxy.InputControl.Masking.{
  Text, units, is_maskable, in_order, mask_of, mask_region, mask_text,
}
use agentguard_action_proxy.InputControl.Masking.Filling.{filled}
use agentguard_action_proxy.InputControl.Masking.Regions.{Disjoint, IsDisjoint, safe_text_lem}
use agentguard_action_proxy.InputControl.Masking.Secrecy.{
  unit_at, IsOutside, IsMasked, safe_text-same,
}
use agentguard_action_proxy.InputControl.Inspection.{
  Scanners, Inspection, found_in_text, inspect_text,
}
use agentguard_action_proxy.InputControl.Inspection.Outcomes.{IsBlocked, inspect_text-IsBlocked}

-- A finding of this type between two positions.
abbrev found_at : String → ℕ → ℕ → Finding
found_at type start end = record {
  category = "SENSITIVE_DATA";
  severity = critical;
  type = some type;
  matched_rule = "sample";
  evidence = "";
  location = record { source = "prompt"; start = start; end = end };
  masked_value = none;
  fingerprint = none;
  decision_contribution = some (contributes block);
  masking_required = none;
  reason = none;
}

abbrev nothing : Text → List Finding
nothing text = []

abbrev two_mails : Text
two_mails = units "a@b.kr or c@d.kr?"

abbrev mails : List Finding
mails = found_at "EMAIL" 0 6 ∷ found_at "EMAIL" 10 16 ∷ []

two_mails_masked : (mask_text nothing two_mails mails).safe_text ≡ units "a***@b.kr or c***@d.kr?"
unfolding mask_text units sort_by keep contains_text mask_region take mask_of length
two_mails_masked = refl

mails_inside : (f : Finding) → In f mails → f.location.end ≤ length two_mails
unfolding In units length
mails_inside f (inl e) = rw⁻¹ e (omega arith)
mails_inside f (inr (inl e)) = rw⁻¹ e (omega arith)
mails_inside f (inr (inr h)) = absurd h

mails-IsDisjoint : IsDisjoint (keep is_maskable mails)
unfolding IsDisjoint keep is_maskable contains_text In
mails-IsDisjoint = (first_apart, ((λ g h. absurd h), tt))
  where
    first_apart :
        (g : Finding) → In g (found_at "EMAIL" 10 16 ∷ []) → Disjoint (found_at "EMAIL" 0 6) g
    first_apart g (inl e) = inl (rw⁻¹ e (omega arith))
    first_apart g (inr h) = absurd h

safe_text_lem_example :
    (mask_text nothing two_mails mails).safe_text
    ≡ filled two_mails (in_order mails) (length two_mails)
safe_text_lem_example = safe_text_lem nothing two_mails mails mails_inside mails-IsDisjoint

-- A key of one letter that brings its mask.
abbrev key : Finding
key = record (found_at "API_KEY" 1 2) { masked_value = some "*" }

abbrev first_text : Text
first_text = 40 ∷ 65 ∷ 41 ∷ []

abbrev second_text : Text
second_text = 40 ∷ 66 ∷ 41 ∷ []

key_inside : (f : Finding) → In f (key ∷ []) → f.location.end ≤ length first_text
unfolding In length
key_inside f (inl e) = rw⁻¹ e (omega arith)
key_inside f (inr h) = absurd h

key-IsDisjoint : IsDisjoint (keep is_maskable (key ∷ []))
unfolding IsDisjoint keep is_maskable contains_text In
key-IsDisjoint = ((λ g h. absurd h), tt)

key-IsMasked : (f : Finding) → In f (keep is_maskable (key ∷ [])) → IsMasked f
unfolding keep is_maskable contains_text In
key-IsMasked f (inl e) = rw⁻¹ e ("*", refl, refl)
key-IsMasked f (inr h) = absurd h

-- The texts differ at the key only.
key_hidden :
    (i : ℕ)
    → IsOutside i (keep is_maskable (key ∷ []))
    → unit_at i first_text ≡ unit_at i second_text
unfolding keep is_maskable contains_text In unit_at
key_hidden zero outside = refl
key_hidden (suc zero) outside = let apart = outside key (inl refl) in absurd (omega (arith, apart))
key_hidden (suc (suc i)) outside = refl

same_length : length first_text ≡ length second_text
unfolding length
same_length = refl

safe_text-same_example :
    (mask_text nothing first_text (key ∷ [])).safe_text
    ≡ (mask_text nothing second_text (key ∷ [])).safe_text
safe_text-same_example =
    safe_text-same first_text second_text same_length nothing (key ∷ []) key_inside key-IsDisjoint
      key-IsMasked key_hidden

-- The end of a password stays in the text where the mask of a key inside it is longer than the key.
overlap_left :
    (mask_text nothing
      (units "secret=sk-ABCDEFGHIJ/xyz")
      (found_at "API_KEY" 7 20 ∷ found_at "PASSWORD_SECRET" 0 24 ∷ [])).safe_text
    ≡ units "sec-************xyz"
unfolding mask_text units sort_by keep contains_text mask_region take mask_of length
overlap_left = refl

-- A family seed for an external service.
abbrev seed_text : Text
seed_text = units "seed: sEdTM1uX8pu2do5XvTnutH6HsouMaM2"

abbrev seed_found : Finding
seed_found = found_at "XRPL_FAMILY_SEED" 6 37

abbrev scanners : Scanners
scanners = record {
  scan_prompt = λ text source. [];
  detect_sensitive_data = λ text source. [];
  detect_extended_data = λ text source destination. seed_found ∷ [];
  sha256 = λ text. "hash";
  is_blank = λ text. elim text [ [] ↦ true | c ∷ more ↦ false ];
}

abbrev external : Destination
external = record {
  type = external_api;
  provider = none;
  approved = none;
  data_retention = none;
  training_use = none;
  region = none;
}

abbrev call : Inspection
call = record {
  policy = record {
    policy_version = "v1";
    scanner_version = "s1";
    max_prompt_length = 1000;
    rules = [];
  };
  uuid = "1";
  clock = λ reading. "now";
  request_id = "r1";
  text = seed_text;
  source = "prompt";
  destination = some external;
}

seed_short : length seed_text ≤ 1000
unfolding length units
seed_short = omega arith

seed_filled : scanners.is_blank seed_text ≡ false
unfolding units
seed_filled = refl

seed-IsLeak : IsLeak (found_in_text scanners call) external
unfolding found_in_text has_category has_any has_type contains_text has_secret is_untrusted
seed-IsLeak = inl refl

inspect_text-IsBlocked_example :
    IsBlocked scanners call [] (inspect_text scanners call []).0 (inspect_text scanners call []).1
inspect_text-IsBlocked_example =
    inspect_text-IsBlocked scanners call [] external seed_filled seed_short refl seed-IsLeak
