-- ===== src/Incus/Images.antt =====
-- incus.py: `ResolvedImage`, and `resolve_vm_image`, which finds the fingerprint that a source names.
use Prim.Native.Char.{code}
use derico_sandbox.Config.Load.{str_of}
use derico_sandbox.Errors.{Result, err, incus_error, ok, unresolved_image}
use derico_sandbox.Incus.Client.{command}
use derico_sandbox.Incus.Values.{dict_of, elements, is_text, or_empty}
use derico_sandbox.Json.{Value}
use derico_sandbox.Prelude.{
  List, Option, String, [], false, if◌then◌else◌, nat_Eq, nat_eq, none, not, some, string_Eq, ◌==◌,
  ◌||◌, ◌∷◌,
}
use derico_sandbox.Prelude.Dict.{Dict, get, put}
use derico_sandbox.Prelude.Text.{starts_with, strip}
use derico_sandbox.System.{Action, Output, System, failed, lift}
use derico_sandbox.Errors
use derico_sandbox.System.{return, ◌>>=◌}
use mathlib.Core.Option

pub record ResolvedImage : Type 0 where
  pub fingerprint : String
  pub architecture : String
  pub serial : String

-- `text.partition(":")`: the text before the first colon and behind it, if it has one
unfoldable pub partition : String → Option (String × String)
partition String.[] = none
partition (String.◌∷◌ c s) =
    let rest = Option.map (λ (p : String × String). (String.◌∷◌ c p.0, p.1)) (partition s) in
    if nat_eq (code c) b':' then some (String.[], s) else rest

module _ (system : System) where
  -- One line of `image info`: a field of the image, or the serial among its properties.
  unfoldable pub info_field : String → Dict String String → Dict String String
  info_field line d =
      let added = λ (p : String × String).
        let name = system.lower (strip p.0) in
        if not (starts_with line " ")
        then put d name (strip p.1)
        else if name == "serial"
        then put d "serial" (strip p.1)
        else d in
      elim (partition line) [ some p ↦ added p | none ↦ d ]

  unfoldable pub info_fields : List String → Dict String String → Dict String String
  info_fields [] d = d
  info_fields (line ∷ rest) d = info_fields rest (info_field line d)

  abbrev pub field_text : Dict String String → String → String
  field_text d k = Option.get_or (get d k) ""

  -- What `image info` tells, if it tells a fingerprint.
  unfoldable pub told_image : Output → Option ResolvedImage
  told_image r =
      let d = info_fields (system.lines r.stdout) [] in
      let image : ResolvedImage = record {
        fingerprint = field_text d "fingerprint";
        architecture = field_text d "architecture";
        serial = field_text d "serial";
      } in
      if failed r || field_text d "fingerprint" == "" then none else some image

  abbrev shown_field : Dict String Value → String → String
  shown_field d k = elim (get d k) [ some v ↦ str_of system.platform v | none ↦ "" ]

  unfoldable pub listed_image : Dict String Value → Result ResolvedImage
  listed_image d = Errors.◌>>=◌ (or_empty system (get d "properties")) λ properties. ok (record {
    fingerprint = shown_field d "fingerprint";
    architecture = shown_field d "architecture";
    serial = shown_field properties "serial";
  })

  -- One image of the listing, if it is the VM image of the alias.
  unfoldable pub match_image : String → Value → Result (Option ResolvedImage)
  match_image alias v = Errors.◌>>=◌ (dict_of v) λ d.
      let updated : Result (Option ResolvedImage) =
        Errors.◌>>=◌ (or_empty system (get d "update_source")) λ update.
          if is_text alias (get update "alias")
          then Errors.◌>>=◌ (listed_image d) (λ image. ok (some image))
          else ok none in
      if is_text "virtual-machine" (get d "type") then updated else ok none

  abbrev first_found :
      Option ResolvedImage → Result (Option ResolvedImage) → Result (Option ResolvedImage)
  first_found (some image) rest = ok (some image)
  first_found none rest = rest

  unfoldable pub find_image : String → List Value → Result (Option ResolvedImage)
  find_image alias [] = ok none
  find_image alias (v ∷ vs) =
      Errors.◌>>=◌ (match_image alias v) (λ found. first_found found (find_image alias vs))

  -- The images of a listing, of which nothing is taken where it cannot be read.
  abbrev listed_images : Output → Result (List Value)
  listed_images r = elim (system.loads r.stdout) [ some v ↦ elements v | none ↦ ok [] ]

  unfoldable pub cached_image : Option (String × String) → Output → Result (Option ResolvedImage)
  cached_image none listing = ok none
  cached_image (some (remote, alias)) listing =
      if failed listing then ok none else Errors.◌>>=◌ (listed_images listing) (find_image alias)

  abbrev resolved_or_refused : Option ResolvedImage → Result ResolvedImage
  resolved_or_refused (some image) = ok image
  resolved_or_refused none = err (incus_error unresolved_image)

  -- The answer of the cache, where the remote has given none.
  unfoldable pub resolve_cached : String → Action ResolvedImage
  resolve_cached source = do
    listing ← command system ("image" ∷ "list" ∷ "--format=json" ∷ []) false none
    found ← lift (cached_image (partition source) listing)
    lift (resolved_or_refused found)

  abbrev pub told_or_cached : String → Option ResolvedImage → Action ResolvedImage
  told_or_cached source (some image) = return image
  told_or_cached source none = resolve_cached source

  -- `Incus.resolve_vm_image`
  unfoldable pub resolve_vm_image : String → Action ResolvedImage
  resolve_vm_image source = do
    r ← command system ("image" ∷ "info" ∷ source ∷ "--vm" ∷ []) false none
    told_or_cached source (told_image r)
