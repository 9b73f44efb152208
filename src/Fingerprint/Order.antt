-- ===== src/Fingerprint/Order.antt =====
-- The canonical text of an object and the order of its properties.
use agentguard_action_proxy.Common.{
  String, ◌≡◌, refl, ◌∙◌, true, false, ◌&&◌, List, [], ◌∷◌, map, arith,
}
use agentguard_action_proxy.Js.{Js}
use agentguard_action_proxy.Js.Value.{Value, obj, Fields, end, field}
use agentguard_action_proxy.Fingerprint.{
  insert_entry, sort_entries, stable_stringify, stringify_fields,
}
use mathlib.Core.Logic.{∥∥₁_elim}
use text.Mathlib.TextEquality.{IsScalar-prop}
use mathlib.Core.List.Permᴰ
use mathlib.Core.List.{Pairwise, Perm, Permᴰ, mem-cons_self}

-- `localeCompare` as a consistent comparison: of two texts one comes first or they tie, and the
-- order is transitive.
pub record IsComparison (js : Js) : Type 0 where
  pub total : (s t : String) → js.locale_le s t ≡ false → js.locale_le t s ≡ true
  pub trans :
      (s t u : String) → js.locale_le s t ≡ true → js.locale_le t u ≡ true → js.locale_le s u ≡ true

String-set : IsSet String
String-set = hlevel IsScalar-prop

-- Two keys that do not tie.
abbrev IsApart : (js : Js) → String → String → Type 0
IsApart js s t = (js.locale_le s t && js.locale_le t s) ≡ false

pub IsApart-prop : (js : Js) (s t : String) → IsProp (IsApart js s t)
IsApart-prop js s t = hlevel

module _ {ℓ} {V : Type ℓ} (js : Js) where
  -- No two keys of the list tie.
  abbrev pub KeysApart : List (String × V) → Type ℓ
  KeysApart = Pairwise (λ e f. IsApart js e.0 f.0)

  KeysApart-perm : {es fs : List (String × V)} → Permᴰ es fs → KeysApart es → KeysApart fs
  KeysApart-perm = Permᴰ.pairwise (λ e f. IsApart-prop js e.0 f.0) (λ e f apart. ground arith)

module _ {js : Js} (order : IsComparison js) where
  insert_entry_comm :
      (k v j w : String) (es : List (String × String))
      → IsApart js k j
      → insert_entry js (k, v) (insert_entry js (j, w) es)
        ≡ insert_entry js (j, w) (insert_entry js (k, v) es)
  unfolding insert_entry
  insert_entry_comm k v j w [] apart = ground (arith, order.total k j)
  insert_entry_comm k v j w ((i, u) ∷ es) apart = ground (
    arith,
    order.total k j,
    order.trans k j i,
    order.trans j k i,
    insert_entry_comm k v j w es apart,
  )

  module _ {ℓ} {V : Type ℓ} (render : V → String) where
    abbrev rendered : List (String × V) → List (String × String)
    rendered = map (λ e. (e.0, render e.1))

    sort_entries-permᴰ :
        {es fs : List (String × V)}
        → Permᴰ es fs
        → KeysApart js es
        → sort_entries js (rendered es) ≡ sort_entries js (rendered fs)
    unfolding sort_entries
    sort_entries-permᴰ Permᴰ.nil apart = refl
    sort_entries-permᴰ (Permᴰ.cons e d) (Pairwise.cons _ rest) = cc (sort_entries-permᴰ d rest)
    sort_entries-permᴰ (Permᴰ.swap {a} {b} {l} e₁ e₂) (Pairwise.cons first rest) = cc (
        insert_entry_comm a.0 (render a.1) b.0 (render b.1) (sort_entries js (rendered l))
          (first b mem-cons_self))
    sort_entries-permᴰ (Permᴰ.trans d₁ d₂) apart =
        sort_entries-permᴰ d₁ apart ∙ sort_entries-permᴰ d₂ (KeysApart-perm js d₁ apart)

module _ {js : Js} where
  -- The properties of an object as a list.
  abbrev pub entries : Fields js → List (String × Value js)
  entries end = []
  entries (field k v fs) = (k, v) ∷ entries fs

  stringify_fields-map :
      (fs : Fields js) → stringify_fields fs ≡ map (λ e. (e.0, stable_stringify e.1)) (entries fs)
  unfolding stringify_fields
  stringify_fields-map end = refl
  stringify_fields-map (field k v fs) = cc (stringify_fields-map fs)

  -- Two objects with the same properties in another order have the same canonical text, provided that
  -- the comparison of keys is consistent and no two keys of the object tie in it.
  pub stable_stringify-perm :
      (fs gs : Fields js)
      → IsComparison js
      → KeysApart js (entries fs)
      → Perm (entries fs) (entries gs)
      → stable_stringify (obj fs) ≡ stable_stringify (obj gs)
  unfolding stable_stringify
  stable_stringify-perm fs gs order apart same = ∥∥₁_elim same (String-set _ _) λ d. cc (
    sort_entries-permᴰ order stable_stringify d apart,
    stringify_fields-map fs,
    stringify_fields-map gs,
  )
