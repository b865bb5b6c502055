-- ===== src/Migrate/Yaml.antt =====
-- The values that `yaml.safe_load` gives to labtris_api/migrate.py, and what it asks of them.
use labtris.Prelude.{Text, [], ◌∷◌, Bool, true, false, if◌then◌else◌, codes, text_eq}
use labtris.Prelude.Result.{◌>>=◌, Result, ok, err, attribute_error, type_error}

mutual
  pub data Yaml : Type 0 where
    -- None, a number, a date: whether it is truthy, and its `str`
    scalar : Bool → Text → Yaml
    str : Text → Yaml
    seq : Items → Yaml
    dict : Entries → Yaml

  pub data Items : Type 0 where
    nil : Items
    cons : Yaml → Items → Items

  pub data Entries : Type 0 where
    empty : Entries
    entry : Yaml → Yaml → Entries → Entries

abbrev pub null : Yaml
null = scalar false (codes "None")

abbrev pub is_key : Text → Yaml → Bool
is_key k (str s) = text_eq s k
is_key k _ = false

-- `d.get(k)`
unfoldable pub get : Text → Entries → Yaml
get k empty = null
get k (entry j v es) = if is_key k j then v else get k es

-- `k in d`
unfoldable pub has : Text → Entries → Bool
has k empty = false
has k (entry j v es) = if is_key k j then true else has k es

abbrev pub truthy : Yaml → Bool
truthy (scalar b s) = b
truthy (str []) = false
truthy (str (c ∷ s)) = true
truthy (seq nil) = false
truthy (seq (cons v vs)) = true
truthy (dict empty) = false
truthy (dict (entry k v es)) = true

-- `v or w`
abbrev pub or_else : Yaml → Yaml → Yaml
or_else v w = if truthy v then v else w

-- the entries of `v`, whose `get` or `items` is called
abbrev pub entries_of : Yaml → Result Entries
entries_of (dict es) = ok es
entries_of _ = err attribute_error

-- `v.get(k)`
abbrev pub get_of : Text → Yaml → Result Yaml
get_of k v = entries_of v >>= λ es. ok (get k es)

abbrev pub chars : Text → Items
chars [] = nil
chars (c ∷ s) = cons (str (c ∷ [])) (chars s)

abbrev pub keys : Entries → Items
keys empty = nil
keys (entry k v es) = cons k (keys es)

-- `for x in v`, and what `len(v)` counts
abbrev pub iterate : Yaml → Result Items
iterate (scalar b s) = err type_error
iterate (str s) = ok (chars s)
iterate (seq vs) = ok vs
iterate (dict es) = ok (keys es)
