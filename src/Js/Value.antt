-- ===== src/Js/Value.antt =====
-- Values of type `unknown`, as JSON gives them, and the operators and the small readers
-- (`numberParameter`, `stringParameter`, `numberValue`) that the source applies to them.
use agentguard_action_proxy.Common.{
  ◌≡◌, refl, arith, eq_iff, String, Bool, true, false, not, List, [], ◌∷◌, Option, none, some, ◌==◌,
  if◌then◌else◌, join,
}
use agentguard_action_proxy.Js.{Js}

module _ (js : Js) where
  mutual
    pub data Value : Type 0 where
      null : Value
      bool : Bool → Value
      num : js.Number → Value
      str : String → Value
      arr : Items → Value
      obj : Fields → Value

    -- The properties of an object, in the order of `Object.entries`.
    pub data Fields : Type 0 where
      end : Fields
      field : String → Value → Fields → Fields

    pub data Items : Type 0 where
      nil : Items
      cons : Value → Items → Items

module _ {js : Js} where
  -- `object.key`; `none` is `undefined`.
  unfoldable pub get : String → Fields js → Option (Value js)
  get k end = none
  get k (field j v fs) = if j == k then some v else get k fs

  -- `value.key` for any value but null and undefined.
  unfoldable pub get_of : String → Value js → Option (Value js)
  unfolding get
  get_of k (obj fs) = get k fs
  get_of k _ = none

  -- `object.key = value`: an old key keeps its place.
  unfoldable pub assign : String → Value js → Fields js → Fields js
  assign k v end = field k v end
  assign k v (field j w fs) = if j == k then field k v fs else field j w (assign k v fs)

  -- `{ ...a, ...b }`.
  unfoldable pub spread : Fields js → Fields js → Fields js
  unfolding assign
  spread a end = a
  spread a (field k v b) = spread (assign k v a) b

  -- A property whose value may be `undefined`, which JSON leaves out.
  abbrev pub optional_field : String → Option (Value js) → Fields js → Fields js
  optional_field k none fs = fs
  optional_field k (some v) fs = field k v fs

  abbrev pub texts : List String → Items js
  texts [] = nil
  texts (s ∷ ss) = cons (str s) (texts ss)

  -- `a ?? b`.
  unfoldable pub nullish_or : Option (Value js) → Option (Value js) → Option (Value js)
  nullish_or none b = b
  nullish_or (some null) b = b
  nullish_or (some v) b = some v

  -- The truth value of a value, under `if` and `||`.
  unfoldable pub truthy : Option (Value js) → Bool
  truthy none = false
  truthy (some null) = false
  truthy (some (bool b)) = b
  truthy (some (num n)) = js.num_truthy n
  truthy (some (str s)) = not (s == "")
  truthy (some _) = true

  -- `value === true`.
  unfoldable pub is_true : Option (Value js) → Bool
  is_true (some (bool b)) = b
  is_true _ = false

  -- `numberParameter`: a number, or a text read as one, or else 0.
  unfoldable pub number_parameter : Option (Value js) → js.Number
  number_parameter (some (num n)) = n
  number_parameter (some (str s)) = js.number_of_text s
  number_parameter _ = js.number 0

  -- `stringParameter`.
  unfoldable pub string_parameter : Option (Value js) → String
  string_parameter (some (str s)) = s
  string_parameter _ = ""

module _ {js : Js} where
  pub get-assign :
      (k j : String) (v : Value js) (fs : Fields js)
      → get j (assign k v fs) ≡ (if k == j then some v else get j fs)
  unfolding get assign
  get-assign k j v end = refl
  get-assign k j v (field i w fs) =
      ground (arith, eq_iff k j, eq_iff i k, eq_iff i j, get-assign k j v fs)

-- `String(value)`; within an array `null` reads as the empty text.
unfoldable mutual
  pub text_of : {js : Js} → Value js → String
  text_of null = "null"
  text_of (bool true) = "true"
  text_of (bool false) = "false"
  text_of {js} (num n) = js.text_of_number n
  text_of (str s) = s
  text_of (arr xs) = join "," (text_of_items xs)
  text_of (obj fs) = "[object Object]"

  text_of_item : {js : Js} → Value js → String
  text_of_item null = ""
  text_of_item (bool true) = "true"
  text_of_item (bool false) = "false"
  text_of_item {js} (num n) = js.text_of_number n
  text_of_item (str s) = s
  text_of_item (arr xs) = join "," (text_of_items xs)
  text_of_item (obj fs) = "[object Object]"

  text_of_items : {js : Js} → Items js → List String
  text_of_items nil = []
  text_of_items (cons v xs) = text_of_item v ∷ text_of_items xs
