-- ===== src/Image/Entries/Roundtrip.antt =====
-- The stamps of a committed worker are read back as its cache entry.
use mathlib.Core.Option
use derico_sandbox.Image.Entries.{
  CacheEntry, Clock, cache_name, commit, entry_from, entry_of, hosts_of, stamped, stamps,
}
use derico_sandbox.Image.Entries.Printed.{ReadsDigits, int_or_zero-show_int}
use derico_sandbox.Image.Keys.{StageKey}
use derico_sandbox.Image.Names.{is_key}
use derico_sandbox.Platform.{Platform}
use derico_sandbox.Prelude.{
  All, Bool, List, Option, String, [], ap, filter, none, sym, ◌∙◌, ◌∷◌, refl, some, string_Eq, true,
  ℕ, ◌==◌, ◌≡◌, ◌≢◌, nat_Eq, Bool-cases, inl, inr,
}
use derico_sandbox.Prelude.Dict.{Dict, get}
use derico_sandbox.Prelude.Split.{IsListable, items_of-join}
use derico_sandbox.Prelude.Text.{drop_chars, or_none, starts_with}

parent_of :
    (parent : Option String) → parent ≢ some "" → or_none (some (Option.get_or parent "")) ≡ parent
unfolding or_none
parent_of none h = refl
parent_of (some p) h = elim (Bool-cases (p == "")) [
  | inl empty ↦ absurd (h (ap some ((string_Eq.beq_iff p "").0 empty)))
  | inr some_text ↦ rw some_text refl
]

-- The case of `entry_of-commit` where the configuration is the stamps alone.
pub entry_of-stamps :
    (platform : Platform) (clock : Clock) (worker : String) (step : StageKey) (source : String)
    (hosts : List String) (existing : Option CacheEntry) (created : ℕ)
    → ReadsDigits platform
    → is_key step.key ≡ true
    → step.parent ≢ some ""
    → All IsListable hosts
    → clock.from_iso (clock.iso created) ≡ some created
    → entry_of platform clock (record {
      name = cache_name step;
      config = stamps platform clock step source hosts created;
    })
      ≡ some (commit platform clock worker step source hosts existing created).1
unfolding entry_of stamped stamps commit hosts_of get starts_with drop_chars
entry_of-stamps platform clock worker step source hosts existing created reads keyed filled listable
      kept =
    rw
      (
        keyed,
        kept,
        parent_of step.parent filled,
        items_of-join hosts listable,
        int_or_zero-show_int platform reads step.generation,
        int_or_zero-show_int platform reads step.stage_generation,
      )
      refl

-- An item of the configuration that `_entry` reads.
abbrev pub is_stamp : String × String → Bool
is_stamp (k, v) = starts_with k "user.sandboxsh.cache."

stamped-filter : (config : Dict String String) → stamped (filter is_stamp config) ≡ stamped config
unfolding stamped
stamped-filter [] = refl
stamped-filter ((k, v) ∷ config) = elim (Bool-cases (starts_with k "user.sandboxsh.cache.")) [
  | inl own ↦
      rw (own, stamped, own) (ap (λ rest. (drop_chars 21 k, v) ∷ rest) (stamped-filter config))
  | inr foreign ↦ rw (foreign, stamped) (stamped-filter config)
]

entry_of-filter :
    (platform : Platform) (clock : Clock) (name : String) (config : Dict String String)
    → entry_of platform clock (record { name = name; config = filter is_stamp config })
      ≡ entry_of platform clock (record { name = name; config = config })
unfolding entry_of
entry_of-filter platform clock name config =
    ap (entry_from platform clock name) (stamped-filter config)

-- With a platform that reads the ASCII digits: the instance that `commit` leaves is read by `_entry` as the
-- entry that `commit` returns, whatever its configuration holds beside the stamps under other keys than
-- those of the cache's prefix, if the key is one, a parent is not empty, no host of the list is empty or
-- has a comma, and the moment survives being written and read.
pub entry_of-commit :
    (platform : Platform) (clock : Clock) (worker : String) (step : StageKey) (source : String)
    (hosts : List String) (existing : Option CacheEntry) (created : ℕ) (config : Dict String String)
    → ReadsDigits platform
    → is_key step.key ≡ true
    → step.parent ≢ some ""
    → All IsListable hosts
    → clock.from_iso (clock.iso created) ≡ some created
    → filter is_stamp config ≡ stamps platform clock step source hosts created
    → entry_of platform clock (record { name = cache_name step; config = config })
      ≡ some (commit platform clock worker step source hosts existing created).1
entry_of-commit platform clock worker step source hosts existing created config reads keyed filled
      listable kept own =
    sym (entry_of-filter platform clock (cache_name step) config)
    ∙ ap (λ d. entry_of platform clock (record { name = cache_name step; config = d })) own
    ∙ entry_of-stamps platform clock worker step source hosts existing created reads keyed filled
        listable kept
