-- ===== src/Base/Value.antt =====
-- The dynamic values of JavaScript: what payloads, form fields and decoded JSON hold. The order of
-- an object's fields is the order of `Object.keys`.
use mathlib.Core.Bool.{Bool, true, false}
use mathlib.Core.List.{List, [], ◌∷◌}
use wazire.Base.Tests.{if◌then◌else◌}
use wazire.Base.Lists.{is_empty}
use wazire.Base.Text.{Text, text_eq}
use wazire.Base.Number.{Number, is_falsy}

mutual
  pub data Value : Type 0 where
    undefined null : Value
    bool : Bool → Value
    num : Number → Value
    str : Text → Value
    arr : Items → Value
    obj : Fields → Value

  pub data Items : Type 0 where
    nil : Items
    cons : Value → Items → Items

  pub data Fields : Type 0 where
    end : Fields
    field : Text → Value → Fields → Fields

-- `!v` is false.
abbrev pub is_truthy : Value → Bool
is_truthy undefined = false
is_truthy null = false
is_truthy (bool b) = b
is_truthy (num n) = if is_falsy n then false else true
is_truthy (str s) = if is_empty s then false else true
is_truthy (arr _) = true
is_truthy (obj _) = true

-- `o[key]`, undefined where the key is missing.
unfoldable pub get_field : Text → Fields → Value
get_field key end = undefined
get_field key (field k v fs) = if text_eq k key then v else get_field key fs

-- `Object.keys(o)`.
unfoldable pub keys : Fields → List Text
keys end = []
keys (field k v fs) = k ∷ keys fs

-- `v?.key`, where only objects have the fields that the source asks for.
abbrev pub prop : Text → Value → Value
prop key (obj fs) = get_field key fs
prop key _ = undefined

abbrev pub is_string : Value → Bool
is_string (str _) = true
is_string _ = false
