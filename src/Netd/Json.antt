-- ===== src/Netd/Json.antt =====
-- The values of a decoded frame, as `json.loads` makes them. A key is a native string; a text value
-- is given by its code points.
use labtris.Prelude.{
  zero, suc, String, Text, List, [], ◌∷◌, Bool, true, false, Option, none, some, if◌then◌else◌,
}
use labtris.Prelude.Int.{ℤ, pos, negsuc}
use text.Mathlib.Text.{◌==◌ as str_eq}

mutual
  pub data Json : Type 0 where
    null : Json
    bool : Bool → Json
    num : ℤ → Json
    -- a float: only whether it is truthy
    real : Bool → Json
    str : Text → Json
    arr : Items → Json
    obj : Fields → Json

  pub data Items : Type 0 where
    nil : Items
    cons : Json → Items → Items

  pub data Fields : Type 0 where
    end : Fields
    field : String → Json → Fields → Fields

-- `d.get(key)`: a missing key gives None
unfoldable pub get : String → Fields → Json
get k end = null
get k (field j v fs) = if str_eq j k then v else get k fs

-- `key in d`
unfoldable pub has : String → Fields → Bool
has k end = false
has k (field j v fs) = if str_eq j k then true else has k fs

-- `d.get(key, default)`
unfoldable pub get_default : String → Json → Fields → Json
unfolding get has
get_default k v fs = if has k fs then get k fs else v

-- `bool(v)`
unfoldable pub truthy : Json → Bool
truthy null = false
truthy (bool b) = b
truthy (num (pos zero)) = false
truthy (num (pos (suc n))) = true
truthy (num (negsuc n)) = true
truthy (real b) = b
truthy (str []) = false
truthy (str (c ∷ s)) = true
truthy (arr nil) = false
truthy (arr (cons v vs)) = true
truthy (obj end) = false
truthy (obj (field k v fs)) = true

-- what `isinstance` lets through; a Python bool is an int
unfoldable pub as_str : Json → Option Text
as_str (str s) = some s
as_str _ = none

unfoldable pub as_bool : Json → Option Bool
as_bool (bool b) = some b
as_bool _ = none

unfoldable pub as_int : Json → Option ℤ
as_int (num n) = some n
as_int (bool true) = some (pos 1)
as_int (bool false) = some (pos 0)
as_int _ = none

abbrev pub items : Items → List Json
items nil = []
items (cons v vs) = v ∷ items vs

unfoldable pub as_list : Json → Option (List Json)
as_list (arr vs) = some (items vs)
as_list _ = none

unfoldable pub as_dict : Json → Option Fields
as_dict (obj fs) = some fs
as_dict _ = none
