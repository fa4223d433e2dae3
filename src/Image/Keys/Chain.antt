-- ===== src/Image/Keys/Chain.antt =====
-- The keys of a chain do not depend on the stages behind.
use derico_sandbox.Image.Keys.{
  source_key, BuildInputs, keys_from, stage_key, stage_keys, declared_of, generation_of, material,
  parent_key, stage_generation_of, stage_inputs,
}
use derico_sandbox.Image.Stages.{
  GuestFiles, Stage, StageInputs, helper_inputs, no_inputs, user_inputs,
}
use derico_sandbox.Platform.{Platform}
use derico_sandbox.Prelude.{
  List, Option, String, [], ap, length, none, refl, some, take, ◌++◌, ◌∷◌, ◌≡◌,
}

module _ (platform : Platform) (guest : GuestFiles) (inputs : BuildInputs) where
  parent_key-stages :
      (zs : List Stage) (parent : Option String)
      → parent_key platform (record inputs { stages = zs }) parent
        ≡ parent_key platform inputs parent
  unfolding parent_key source_key
  parent_key-stages zs none = refl
  parent_key-stages zs (some k) = refl

  stage_inputs-stages :
      (zs : List Stage) (i : StageInputs)
      → stage_inputs i (record inputs { stages = zs }) ≡ stage_inputs i inputs
  unfolding stage_inputs
  stage_inputs-stages zs no_inputs = refl
  stage_inputs-stages zs user_inputs = refl
  stage_inputs-stages zs helper_inputs = refl

  stage_key-stages :
      (zs : List Stage) (parent : Option String) (s : Stage)
      → stage_key platform guest (record inputs { stages = zs }) parent s
        ≡ stage_key platform guest inputs parent s
  unfolding stage_key material declared_of generation_of stage_generation_of
  stage_key-stages zs parent s =
      rw (parent_key-stages zs parent, stage_inputs-stages zs s.inputs) refl

  keys_from-take :
      (xs ys zs : List Stage) (parent : Option String)
      → take
          (length xs)
          (keys_from platform guest (record inputs { stages = zs }) parent (xs ++ ys))
        ≡ keys_from platform guest inputs parent xs
  unfolding keys_from
  keys_from-take [] ys zs parent = refl
  keys_from-take (x ∷ xs) ys zs parent = rw (stage_key-stages zs parent x) (
      ap (stage_key platform guest inputs parent x ∷◌)
        (keys_from-take xs ys zs (some (stage_key platform guest inputs parent x).key)))

module _ (platform : Platform) (guest : GuestFiles) (inputs : BuildInputs) where
  -- Stages that are added or changed behind those of the inputs leave the keys of these as they are, so
  -- the entries that the cache has for them stay good.
  pub stage_keys-take :
      (ys : List Stage)
      → take
          (length inputs.stages)
          (stage_keys platform guest (record inputs { stages = inputs.stages ++ ys }))
        ≡ stage_keys platform guest inputs
  unfolding stage_keys
  stage_keys-take ys =
      keys_from-take platform guest inputs inputs.stages ys (inputs.stages ++ ys) none
