-- ===== src/Image/Manifest/Roundtrip.antt =====
-- The document of the builds' manifest is read back.
use derico_sandbox.Image.Entries.Printed.{ReadsDigits, int_or_zero-show_int}
use derico_sandbox.Config.Load.{str_of}
use derico_sandbox.Image.Manifest.{
  Manifest, PinnedSource, generation_value, is_true, load_manifest, manifest_document,
  read_generations, read_source, read_source_items, read_sources, source_document,
}
use derico_sandbox.Json.{Value, fields, int, obj, object}
use derico_sandbox.Platform.{Platform}
use derico_sandbox.Prelude.{
  All, Option, String, [], ap, false, map, none, refl, some, string_Eq, ◌∙◌, ◌∷◌, ◌≡◌, ◌==◌, nat_Eq,
}
use derico_sandbox.Prelude.Dict.{Dict, get}
use derico_sandbox.Prelude.Int.{ℤ}
use derico_sandbox.Prelude.Sort.{sorted, All-sorted}
use derico_sandbox.Prelude.Text.{str_le}

module _ (platform : Platform) (reads : ReadsDigits platform) where
  read_generations-object :
      (gs : Dict String ℤ)
      → read_generations platform
          (some (obj (object (map (λ (p : String × ℤ). (p.0, int p.1)) gs))))
        ≡ gs
  unfolding read_generations generation_value str_of
  read_generations-object [] = refl
  read_generations-object ((stage, z) ∷ gs) =
      ap
        (λ g.
          (stage, g)
          ∷ read_generations platform
              (some (obj (object (map (λ (p : String × ℤ). (p.0, int p.1)) gs)))))
        (int_or_zero-show_int platform reads z)
      ∙ ap (λ rest. (stage, z) ∷ rest) (read_generations-object gs)

-- A source that has a fingerprint.
abbrev IsPinned : String × PinnedSource → Type 0
IsPinned p = (p.1.fingerprint == "") ≡ false

fields-object : (d : Dict String Value) → fields (object d) ≡ d
fields-object [] = refl
fields-object ((k, v) ∷ d) = ap (λ rest. (k, v) ∷ rest) (fields-object d)

module _ (platform : Platform) where
  read_source-source_document :
      (s : PinnedSource)
      → (s.fingerprint == "") ≡ false
      → read_source platform (source_document s) ≡ some s
  unfolding read_source source_document is_true str_of get
  read_source-source_document s pinned = rw pinned refl

  read_source_items-pinned :
      (ss : Dict String PinnedSource)
      → All IsPinned ss
      → read_source_items platform
          (map (λ (p : String × PinnedSource). (p.0, source_document p.1)) ss)
        ≡ ss
  unfolding read_source_items
  read_source_items-pinned [] pinned = refl
  read_source_items-pinned ((alias, s) ∷ ss) pinned =
      ap
        (λ (o : Option PinnedSource). elim o [
          | some source ↦
              (alias, source)
              ∷ read_source_items platform
                  (map (λ (p : String × PinnedSource). (p.0, source_document p.1)) ss)
          | none ↦
              read_source_items platform
                (map (λ (p : String × PinnedSource). (p.0, source_document p.1)) ss)
        ])
        (read_source-source_document s pinned.0)
      ∙ ap (λ rest. (alias, s) ∷ rest) (read_source_items-pinned ss pinned.1)

  read_sources-object :
      (ss : Dict String PinnedSource)
      → All IsPinned ss
      → read_sources platform
          (some (obj (object (map (λ (p : String × PinnedSource). (p.0, source_document p.1)) ss))))
        ≡ ss
  unfolding read_sources
  read_sources-object ss pinned =
      ap (read_source_items platform) (fields-object _) ∙ read_source_items-pinned ss pinned

-- The items of a dictionary by their keys.
abbrev pub in_order {ℓ} : {V : Type ℓ} → Dict String V → Dict String V
in_order {V} d = sorted (λ (a b : String × V). str_le a.0 b.0) d

abbrev listed_generations : Manifest → Value
listed_generations m =
    obj (object (map (λ (p : String × ℤ). (p.0, int p.1)) (in_order m.stage_generations)))

abbrev listed_sources : Manifest → Value
listed_sources m =
    obj (
      object (map (λ (p : String × PinnedSource). (p.0, source_document p.1)) (in_order m.sources)))

abbrev read_as : ℤ → Dict String ℤ → Dict String PinnedSource → Manifest
read_as g gs ss = record { generation = g; stage_generations = gs; sources = ss }

-- With a platform that reads the ASCII digits, and a fingerprint in each source, `Manifest.load` of what
-- `Manifest.save` writes gives the manifest back, with its stages and its sources in the order of their
-- names.
pub load_manifest-manifest_document :
    (platform : Platform) (m : Manifest)
    → ReadsDigits platform
    → All IsPinned m.sources
    → load_manifest platform (some (manifest_document m)) ≡ record {
      generation = m.generation;
      stage_generations = in_order m.stage_generations;
      sources = in_order m.sources;
    }
unfolding load_manifest manifest_document generation_value str_of get
load_manifest-manifest_document platform m reads pinned =
    ap
      (λ g.
        read_as g (read_generations platform (some (listed_generations m)))
          (read_sources platform (some (listed_sources m))))
      (int_or_zero-show_int platform reads m.generation)
    ∙ ap (λ gs. read_as m.generation gs (read_sources platform (some (listed_sources m))))
        (read_generations-object platform reads (in_order m.stage_generations))
    ∙ ap (λ ss. read_as m.generation (in_order m.stage_generations) ss)
        (read_sources-object platform (in_order m.sources)
          (All-sorted (λ (a b : String × PinnedSource). str_le a.0 b.0) IsPinned m.sources pinned))
