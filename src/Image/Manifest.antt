-- ===== src/Image/Manifest.antt =====
-- imagebuild.py: `PinnedSource` and `Manifest`, the host-side record of generations and pinned sources.
pub mod Roundtrip
use mathlib.Core.Option
use derico_sandbox.Config.Load.{str_of}
use derico_sandbox.Image.Entries.{int_or_zero}
use derico_sandbox.Json.{
  Value, arr, bool, cons, end, field, fields, int, nil, null, obj, object, real, text,
}
use derico_sandbox.Platform.{Platform}
use derico_sandbox.Prelude.{
  Bool, Option, String, [], false, if◌then◌else◌, map, nat_Eq, none, not, some, string_Eq, true,
  zero, ◌==◌, ◌||◌, ◌∷◌,
}
use derico_sandbox.Prelude.Dict.{Dict, get}
use derico_sandbox.Prelude.Int.{pos, ℤ}
use derico_sandbox.Prelude.Sort.{sorted}
use derico_sandbox.Prelude.Text.{str_le}

pub record PinnedSource : Type 0 where
  pub fingerprint : String
  pub architecture : String
  pub serial : String
  pub pinned : String

pub record Manifest : Type 0 where
  pub generation : ℤ
  pub stage_generations : Dict String ℤ
  pub sources : Dict String PinnedSource

abbrev pub empty_manifest : Manifest
empty_manifest = record { generation = pos zero; stage_generations = []; sources = [] }

module _ (platform : Platform) where
  -- `_int(str(value))`
  unfoldable pub generation_value : Value → ℤ
  generation_value v = int_or_zero platform (some (str_of platform v))

  -- `bool(value)`
  unfoldable pub is_true : Value → Bool
  is_true null = false
  is_true (bool b) = b
  is_true (int (pos zero)) = false
  is_true (int z) = true
  is_true (real r) = not (platform.repr (real r) == "0.0" || platform.repr (real r) == "-0.0")
  is_true (text s) = not (s == "")
  is_true (arr nil) = false
  is_true (arr (cons v vs)) = true
  is_true (obj end) = false
  is_true (obj (field k v fs)) = true

  unfoldable pub read_generations : Option Value → Dict String ℤ
  read_generations (some (obj fs)) =
      map (λ (p : String × Value). (p.0, generation_value p.1)) (fields fs)
  read_generations _ = []

  abbrev text_field : Dict String Value → String → String
  text_field d k = elim (get d k) [ some v ↦ str_of platform v | none ↦ "" ]

  -- One item of `sources`, if it is an object with a fingerprint.
  unfoldable pub read_source : Value → Option PinnedSource
  read_source (obj fs) =
      let d = fields fs in
      let source : PinnedSource = record {
        fingerprint = text_field d "fingerprint";
        architecture = text_field d "architecture";
        serial = text_field d "serial";
        pinned = text_field d "pinned";
      } in
      if is_true (Option.get_or (get d "fingerprint") null) then some source else none
  read_source _ = none

  unfoldable pub read_source_items : Dict String Value → Dict String PinnedSource
  read_source_items [] = []
  read_source_items ((alias, v) ∷ d) =
      let rest = read_source_items d in
      elim (read_source v) [ some source ↦ (alias, source) ∷ rest | none ↦ rest ]

  unfoldable pub read_sources : Option Value → Dict String PinnedSource
  read_sources (some (obj fs)) = read_source_items (fields fs)
  read_sources _ = []

  -- `Manifest.load` of what the file holds; `none` for a file that cannot be read or decoded
  unfoldable pub load_manifest : Option Value → Manifest
  load_manifest (some (obj fs)) =
      let d = fields fs in
      record {
        generation = generation_value (Option.get_or (get d "generation") (int (pos zero)));
        stage_generations = read_generations (get d "stage_generations");
        sources = read_sources (get d "sources");
      }
  load_manifest _ = empty_manifest

unfoldable pub source_document : PinnedSource → Value
source_document s = obj (
    object (
      ("fingerprint", text s.fingerprint)
      ∷ ("architecture", text s.architecture)
      ∷ ("serial", text s.serial)
      ∷ ("pinned", text s.pinned)
      ∷ []))

-- The document that `Manifest.save` writes.
unfoldable pub manifest_document : Manifest → Value
manifest_document m = obj (
    object (
      ("version", int (pos 1))
      ∷ ("generation", int m.generation)
      ∷ (
        "stage_generations",
        obj (
            object (
              map (λ (p : String × ℤ). (p.0, int p.1))
                (sorted (λ (a b : String × ℤ). str_le a.0 b.0) m.stage_generations))),
      )
      ∷ (
        "sources",
        obj (
            object (
              map (λ (p : String × PinnedSource). (p.0, source_document p.1))
                (sorted (λ (a b : String × PinnedSource). str_le a.0 b.0) m.sources))),
      )
      ∷ []))
