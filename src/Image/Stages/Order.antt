-- ===== src/Image/Stages/Order.antt =====
-- The order of the stages that `load_stages` returns.
use derico_sandbox.FilePath
use derico_sandbox.Errors.{
  >>=-eq-ok, image_error, last_stage, ok, ok_injective, reject, repeated_stages, first_stage,
  no_stage_directory,
}
use derico_sandbox.FilePath.{FilePath}
use derico_sandbox.Image.Stages.{
  GuestFiles, Stage, assemble, core_stages, finalize_stage, load_stages, optional_stages,
  stage_names, verify_cloud_init_contract, load_core,
}
use derico_sandbox.Platform.{Platform}
use derico_sandbox.Prelude.{
  Bool, IsDistinct, List, [], arith, distinct, eq_iff, head_or, length, length-distinct-IsDistinct,
  nat_Eq, nat_eq, not, string_Eq, sym, ◌++◌, ◌==◌, ◌∷◌, ◌≡◌, ap, append-init-last, init_of, last_of,
  ◌∙◌,
}
use derico_sandbox.Prelude.Sort.{sorted}
use derico_sandbox.Prelude.Text.{str_le, starts_with}
use mathlib.Core.Path.{subst}

abbrev pub by_name : Stage → Stage → Bool
by_name a b = str_le a.name b.name

module _ (platform : Platform) (guest : GuestFiles) where
  assemble-names :
      (extra : List FilePath) (core stages : List Stage) (last : Stage)
      → assemble platform guest extra core last ≡ ok stages
      → (optional : List Stage) × (optional_stages platform guest extra ≡ ok optional)
        × (stages ≡ sorted by_name (core ++ optional) ++ last ∷ [])
        × (last.name ≡ finalize_stage)
        × IsDistinct (stage_names stages)
  unfolding assemble
  assemble-names extra core stages last h =
      let (_, named, h1) =
        >>=-eq-ok (reject (not (last.name == finalize_stage)) (image_error last_stage)) _ h in
      let (optional, read, h2) = >>=-eq-ok (optional_stages platform guest extra) _ h1 in
      let all_ = sorted by_name (core ++ optional) ++ last ∷ [] in
      let (_, unique, h3) =
        >>=-eq-ok
          (reject (not (nat_eq (length (distinct (stage_names all_))) (length (stage_names all_))))
            (image_error (repeated_stages (stage_names all_))))
          _ h2 in
      let (_, contract, done) =
        >>=-eq-ok
          (verify_cloud_init_contract platform guest
            (head_or last (sorted by_name (core ++ optional))) last)
          _ h3 in
      (
        optional,
        read,
        sym (ok_injective done),
        ground (arith, eq_iff last.name finalize_stage),
        subst (λ (ss : List Stage). IsDistinct (stage_names ss)) (ok_injective done)
            (length-distinct-IsDistinct (stage_names all_) (ground arith)),
      )

  load_core-names :
      (extra : List FilePath) (core stages : List Stage)
      → load_core platform guest extra core ≡ ok stages
      → (before : List Stage) × (last : Stage) × (core ≡ before ++ last ∷ [])
        × (assemble platform guest extra before last ≡ ok stages)
  unfolding load_core
  load_core-names extra [] stages h = cc
  load_core-names extra (s ∷ ss) stages h =
      let (_, first, h1) =
        >>=-eq-ok (reject (not (starts_with s.name "10-")) (image_error first_stage)) _ h in
      (init_of s ss, last_of s ss, sym (append-init-last s ss), h1)

  -- The stages of a chain that is returned have names of their own; the last one is finalize, and those
  -- before it are the other scripts of the directory and the optional ones, in the order of their names.
  pub load_stages-names :
      (extra : List FilePath) (stages : List Stage)
      → load_stages platform guest extra ≡ ok stages
      → (core : List Stage) × (optional : List Stage) × (last : Stage) × (core_stages platform guest
            (sorted (λ a b. str_le (FilePath.name a) (FilePath.name b)) guest.listing)
          ≡ ok (core ++ last ∷ []))
        × (optional_stages platform guest extra ≡ ok optional)
        × (stages ≡ sorted by_name (core ++ optional) ++ last ∷ [])
        × (last.name ≡ finalize_stage)
        × IsDistinct (stage_names stages)
  unfolding load_stages
  load_stages-names extra stages h =
      let (_, present, h1) =
        >>=-eq-ok (reject (not guest.is_dir) (image_error no_stage_directory)) _ h in
      let (core, read, h2) =
        >>=-eq-ok
          (core_stages platform guest
            (sorted (λ a b. str_le (FilePath.name a) (FilePath.name b)) guest.listing))
          _ h1 in
      let (before, last, parts, h3) = load_core-names extra core stages h2 in
      let (optional, others, order, final, names) = assemble-names extra before stages last h3 in
      (before, optional, last, read ∙ ap ok parts, others, order, final, names)
