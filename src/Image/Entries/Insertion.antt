-- ===== src/Image/Entries/Insertion.antt =====
-- The cache is a map from keys to entries, and `commit` is an insertion.
use derico_sandbox.Image.Entries.{
  CacheEntry, Clock, Instance, cache_name, commit, entries, entries_onto, entry_of, stamps,
}
use derico_sandbox.Image.Entries.Printed.{ReadsDigits}
use derico_sandbox.Image.Entries.Roundtrip.{entry_of-stamps}
use derico_sandbox.Prelude.Split.{IsListable}
use derico_sandbox.Image.Keys.{StageKey}
use derico_sandbox.Image.Names.{is_key}
use derico_sandbox.Platform.{Platform}
use derico_sandbox.Prelude.{
  All, List, Option, String, [], ap, arith, if◌then◌else◌, none, refl, some, string_Eq, sym, true,
  ℕ, ◌++◌, ◌==◌, ◌∙◌, ◌∷◌, ◌≡◌, ◌≢◌, nat_Eq,
}
use derico_sandbox.Prelude.Dict.{Dict, get, get-put, put}

-- The first of two, where there is one.
abbrev or_else : Option CacheEntry → Option CacheEntry → Option CacheEntry
or_else (some e) o = some e
or_else none o = o

-- The entry, if it has the key.
abbrev with_key : String → Option CacheEntry → Option CacheEntry
with_key k none = none
with_key k (some e) = if k == e.key then some e else none

module _ (platform : Platform) (clock : Clock) where
  -- The last entry of the listing with the key.
  abbrev latest : List Instance → String → Option CacheEntry
  latest [] k = none
  latest (i ∷ is) k = or_else (latest is k) (with_key k (entry_of platform clock i))

  get-entries_onto :
      (d : Dict String CacheEntry) (listing : List Instance) (k : String)
      → get (entries_onto platform clock d listing) k ≡ or_else (latest listing k) (get d k)
  unfolding entries_onto
  get-entries_onto d [] k = refl
  get-entries_onto d (i ∷ is) k =
      elim (entry_of platform clock i)
        as (λ o.
          get
            (elim o [
              | some entry ↦ entries_onto platform clock (put d entry.key entry) is
              | none ↦ entries_onto platform clock d is
            ])
            k
          ≡ or_else (or_else (latest is k) (with_key k o)) (get d k)) [
            | some entry ↦
                get-entries_onto (put d entry.key entry) is k
                ∙ ap (or_else (latest is k)) (get-put d entry.key k entry)
                ∙ ground arith
            | none ↦ get-entries_onto d is k ∙ ground arith
          ]

  latest-append :
      (before after : List Instance) (k : String)
      → latest (before ++ after) k ≡ or_else (latest after k) (latest before k)
  latest-append [] after k = ground arith
  latest-append (i ∷ is) after k = ground (arith, latest-append is after k)

  get-entries :
      (listing : List Instance) (k : String)
      → get (entries platform clock listing) k ≡ latest listing k
  unfolding entries get
  get-entries listing k = get-entries_onto [] listing k ∙ ground arith

  inserted :
      (k key : String) (e : CacheEntry) (later before : Option CacheEntry)
      → e.key ≡ key
      → (k ≡ key → later ≡ none)
      → or_else (or_else later (with_key k (some e))) before
        ≡ (if k == key then some e else or_else later before)
  inserted k key e later before named absent =
      ground (arith, string_Eq.beq_iff k key, string_Eq.beq_iff k e.key)

-- With a platform that reads the ASCII digits: where the listing has the instance that `commit` leaves, under its
-- name and with its stamps, and none behind it is of its key, `entries` finds what `commit` returns under that key,
-- and under each other key what it finds without the instance. The key is one, a parent is not empty, no host of
-- the list is empty or has a comma, and the moment survives being written and read.
pub get-entries-commit :
    (platform : Platform) (clock : Clock) (worker : String) (step : StageKey) (source : String)
    (hosts : List String) (existing : Option CacheEntry) (created : ℕ)
    (before after : List Instance) (k : String)
    → ReadsDigits platform
    → is_key step.key ≡ true
    → step.parent ≢ some ""
    → All IsListable hosts
    → clock.from_iso (clock.iso created) ≡ some created
    → get (entries platform clock after) step.key ≡ none
    → get
        (entries platform clock (
          before
          ++ record {
            name = cache_name step;
            config = stamps platform clock step source hosts created;
          }
            ∷ after))
        k
      ≡ (if k == step.key
          then some (commit platform clock worker step source hosts existing created).1
          else get (entries platform clock (before ++ after)) k)
unfolding commit
get-entries-commit platform clock worker step source hosts existing created before after k reads
      keyed filled listable kept absent =
    let instance_ : Instance = record {
      name = cache_name step;
      config = stamps platform clock step source hosts created;
    } in
    let new = (commit platform clock worker step source hosts existing created).1 in
    get-entries platform clock (before ++ instance_ ∷ after) k
    ∙ latest-append platform clock before (instance_ ∷ after) k
    ∙ ap
        (λ o.
          or_else (or_else (latest platform clock after k) (with_key k o))
            (latest platform clock before k))
        (entry_of-stamps platform clock worker step source hosts existing created reads keyed filled
          listable kept)
    ∙ inserted platform clock k step.key new (latest platform clock after k)
        (latest platform clock before k) refl
        (λ same_key.
          ap (latest platform clock after) same_key
          ∙ sym (get-entries platform clock after step.key)
          ∙ absent)
    ∙ ap (λ o. if k == step.key then some new else o)
        (sym (
          get-entries platform clock (before ++ after) k
          ∙ latest-append platform clock before after k))
