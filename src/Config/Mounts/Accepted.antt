-- ===== src/Config/Mounts/Accepted.antt =====
-- What `_parse_mounts` accepts.
use derico_sandbox.FilePath
use mathlib.Core.Path.{subst}
use derico_sandbox.Errors.{>>=-eq-ok, ok, ok_injective}
use derico_sandbox.FilePath.{FilePath, path_eq}
use derico_sandbox.Json.{Value}
use derico_sandbox.Platform.{Platform}
use derico_sandbox.Prelude.{
  All, IsDistinct, IsFresh, IsFresh-cons, List, Option, String, [], arith, contains, false, find?,
  map, nat_Eq, none, refl, some, string_Eq, suc, ℕ, ◌∷◌, ◌≡◌,
}
use derico_sandbox.Prelude.Dict.{Dict, get, values}
use derico_sandbox.Config.Mounts.{
  Mount, parse_mounts, parse_mount_list, parse_mount, check_root, dir_entries,
}

abbrev targets : List Mount → List String
targets = map (λ m. m.target)

-- A mount is marked as inside the project exactly when its source is the root or below it.
abbrev IsMarked : FilePath → Mount → Type 0
IsMarked root m = m.inside_project ≡ FilePath.is_relative_to m.source root

parse_mount_facts :
    (platform : Platform) (root : FilePath) (used : List String) (v : Value) (index : ℕ) (m : Mount)
    → parse_mount platform root used v index ≡ ok m
    → (contains used m.target ≡ false) × IsMarked root m
unfolding parse_mount
parse_mount_facts platform root used v index m h = ground arith

parse_mount_list_facts :
    (platform : Platform) (root : FilePath) (used : List String) (vs : List Value) (index : ℕ)
    (ms : List Mount)
    → parse_mount_list platform root used vs index ≡ ok ms
    → IsFresh used (targets ms) × IsDistinct (targets ms) × All (IsMarked root) ms
unfolding parse_mount_list
parse_mount_list_facts platform root used [] index [] h = (tt, tt, tt)
parse_mount_list_facts platform root used [] index (m ∷ ms) h = cc
parse_mount_list_facts platform root used (v ∷ vs) index [] h = ground arith
parse_mount_list_facts platform root used (v ∷ vs) index (m ∷ ms) h =
    let first = parse_mount_facts platform root used v index m (ground arith) in
    let rest =
      parse_mount_list_facts platform root (m.target ∷ used) vs (suc index) ms (ground arith) in
    let fresh = (IsFresh-cons m.target used (targets ms)).0 rest.0 in
    ((first.0, fresh.0), (fresh.1, rest.1), (first.1, rest.2))

-- The mounts that the loader accepts for a project.
pub record IsValid (root : FilePath) (ms : List Mount) : Type 0 where
  pub targets_distinct : IsDistinct (targets ms)
  pub marked : All (IsMarked root) ms
  pub root_mounted :
      (m : Mount) × (find? (λ (n : Mount). path_eq n.source root) ms ≡ some m)
      × (m.readonly ≡ false)

check_root_ok :
    (o : Option Mount) → check_root o ≡ ok tt → (m : Mount) × (o ≡ some m) × (m.readonly ≡ false)
unfolding check_root
check_root_ok none h = cc
check_root_ok (some m) h = (m, refl, ground arith)

-- If "dirs" is accepted, no two mounts have the same guest path, each is marked as inside the project
-- exactly when its source is the project's root or below it, and the first mount of the root itself
-- is there and is writable.
pub parse_mounts-IsValid :
    (platform : Platform) (d : Dict String Value) (root : FilePath) (ms : List Mount)
    → parse_mounts platform d root ≡ ok ms
    → IsValid root ms
unfolding parse_mounts
parse_mounts-IsValid platform d root ms h =
    let (values, given, rest) = >>=-eq-ok (dir_entries (get d "dirs")) _ h in
    let (parsed, read, rest') = >>=-eq-ok (parse_mount_list platform root [] values 0) _ rest in
    let facts = parse_mount_list_facts platform root [] values 0 parsed read in
    let (_, checked, done) = >>=-eq-ok (check_root (find? _ parsed)) _ rest' in
    subst (IsValid root) (ok_injective done) (record {
      targets_distinct = facts.1;
      marked = facts.2;
      root_mounted = check_root_ok _ checked;
    })
