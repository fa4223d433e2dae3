-- ===== src/Incus/Values.antt =====
-- incus.py: how the client takes apart what `json.loads` has returned of a listing. A value of another
use derico_sandbox.Errors.{◌>>=◌}
-- type than the code expects raises what Python raises there.
use derico_sandbox.Config.Load.{str_of}
use derico_sandbox.Errors.{Result, attribute_error, crash, err, ok, type_error}
use derico_sandbox.Json.{Value, arr, bool, fields, int, items, null, obj, real, text}
use derico_sandbox.Platform.{Platform}
use derico_sandbox.Prelude.{
  Bool, List, Option, String, [], false, if◌then◌else◌, is_empty, map, nat_Eq, none, not, some,
  string_Eq, true, zero, ◌==◌, ◌∷◌,
}
use derico_sandbox.Prelude.Dict.{Dict, get, keys}
use derico_sandbox.Prelude.Int.{pos, ℤ}
use derico_sandbox.Prelude.Text.{single, starts_with}
use derico_sandbox.System.{System}

abbrev characters : String → List String
characters String.[] = []
characters (String.◌∷◌ c s) = single c ∷ characters s

-- `for x in value`
unfoldable pub elements : Value → Result (List Value)
elements (arr vs) = ok (items vs)
elements (obj fs) = ok (map text (keys (fields fs)))
elements (text s) = ok (map text (characters s))
elements _ = err (crash type_error)

-- `value.get`, which only a dictionary has
unfoldable pub dict_of : Value → Result (Dict String Value)
dict_of (obj fs) = ok (fields fs)
dict_of _ = err (crash attribute_error)

-- `value == text`
abbrev pub is_text : String → Option Value → Bool
is_text s (some (text t)) = t == s
is_text s _ = false

abbrev nonzero_int : ℤ → Bool
nonzero_int (pos zero) = false
nonzero_int _ = true

-- `bool(value)`
unfoldable pub truthy : System → Value → Bool
truthy system null = false
truthy system (bool b) = b
truthy system (int z) = nonzero_int z
truthy system (real r) = system.is_nonzero r
truthy system (text s) = not (s == "")
truthy system (obj fs) = not (is_empty (fields fs))
truthy system (arr vs) = not (is_empty (items vs))

-- `(value or {})`, of which an attribute of a dictionary is taken
unfoldable pub or_empty : System → Option Value → Result (Dict String Value)
or_empty system none = ok []
or_empty system (some v) = if truthy system v then dict_of v else ok []

-- `next((entry for entry in entries if entry.get("name") == name), None)`
unfoldable pub find_named : String → List Value → Result (Option (Dict String Value))
find_named wanted [] = ok none
find_named wanted (v ∷ vs) =
    let rest = find_named wanted vs in
    dict_of v >>= λ entry. if is_text wanted (get entry "name") then ok (some entry) else rest

abbrev name_of : Option Value → Option String
name_of (some (text s)) = some s
name_of _ = none

abbrev pub shown_name : Platform → Option Value → String
shown_name platform none = ""
shown_name platform (some v) = str_of platform v

-- `{project.get("name") for project in projects}`, with every name that is not a text as `none`
unfoldable pub names_of : List Value → Result (List (Option String))
names_of [] = ok []
names_of (v ∷ vs) = do entry ← dict_of v; rest ← names_of vs; ok (name_of (get entry "name") ∷ rest)

-- The records of `list_instances`: dictionaries whose name has the prefix.
unfoldable pub named_records : Platform → String → List Value → List (Dict String Value)
named_records platform prefix [] = []
named_records platform prefix (obj fs ∷ vs) =
    let rest = named_records platform prefix vs in
    if starts_with (shown_name platform (get (fields fs) "name")) prefix
    then fields fs ∷ rest
    else rest
named_records platform prefix (_ ∷ vs) = named_records platform prefix vs
