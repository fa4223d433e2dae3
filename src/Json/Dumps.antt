-- ===== src/Json/Dumps.antt =====
-- `json.dumps(document, sort_keys=True, separators=(",", ":"))`
use derico_sandbox.Prelude.{String, ◌<>◌, true, false, if◌then◌else◌, List, [], ◌∷◌}
use derico_sandbox.Prelude.Decimal.{show_int}
use derico_sandbox.Prelude.Text.{str_le}
use derico_sandbox.Json.{
  Value, null, bool, int, real, text, arr, obj, Items, nil, cons, Fields, end, field,
}
use derico_sandbox.Platform.{Platform}

insert_field : String → String → List (String × String) → List (String × String)
insert_field k v [] = (k, v) ∷ []
insert_field k v ((j, w) ∷ fs) =
    let rest = insert_field k v fs in if str_le k j then (k, v) ∷ (j, w) ∷ fs else (j, w) ∷ rest

joined : List (String × String) → String
joined [] = ""
joined ((k, v) ∷ []) = k <> ":" <> v
joined ((k, v) ∷ f ∷ fs) = k <> ":" <> v <> "," <> joined (f ∷ fs)

module _ (platform : Platform) where
  mutual
    pub dump : Value → String
    dump null = "null"
    dump (bool true) = "true"
    dump (bool false) = "false"
    dump (int z) = show_int z
    dump (real r) = platform.repr (real r)
    dump (text s) = platform.json_text s
    dump (arr vs) = "[" <> dump_items vs <> "]"
    dump (obj fs) = "{" <> joined (dump_fields fs) <> "}"

    dump_items : Items → String
    dump_items nil = ""
    dump_items (cons v nil) = dump v
    dump_items (cons v (cons w vs)) = dump v <> "," <> dump_items (cons w vs)

    -- Sorted by key, each key and value as text.
    dump_fields : Fields → List (String × String)
    dump_fields end = []
    dump_fields (field k v fs) = insert_field k (dump v) (dump_fields fs)
