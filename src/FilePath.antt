-- ===== src/FilePath.antt =====
-- `pathlib.Path`, as the program uses it: an absolute, resolved path is the list of its parts.
use derico_sandbox.Prelude.{
  String, ◌<>◌, List, [], ◌∷◌, Bool, true, false, not, ◌&&◌, ◌||◌, filter, ◌==◌, string_Eq,
}
use derico_sandbox.Prelude.Text.{join, split}

abbrev pub FilePath : Type 0
FilePath = List String

-- `str(path)`
unfoldable pub render : FilePath → String
render parts = "/" <> join "/" parts

-- `path.name`, which is empty for the root
unfoldable pub name : FilePath → String
name [] = ""
name (p ∷ []) = p
name (p ∷ q ∷ parts) = name (q ∷ parts)

unfoldable pub parent : FilePath → FilePath
parent [] = []
parent (p ∷ []) = []
parent (p ∷ q ∷ parts) = p ∷ parent (q ∷ parts)

-- `path.relative_to(base)` does not raise: `base` is `path` or a parent of it
unfoldable pub is_relative_to : FilePath → FilePath → Bool
is_relative_to path [] = true
is_relative_to [] (b ∷ base) = false
is_relative_to (p ∷ path) (b ∷ base) = p == b && is_relative_to path base

abbrev pub path_eq : FilePath → FilePath → Bool
path_eq [] [] = true
path_eq [] (b ∷ bs) = false
path_eq (a ∷ as_) [] = false
path_eq (a ∷ as_) (b ∷ bs) = a == b && path_eq as_ bs

-- `Path(text).parts` of an absolute guest path, without the leading "/"
unfoldable pub parts : String → List String
parts text = filter (λ p. not (p == "" || p == ".")) (split b'/' text)
