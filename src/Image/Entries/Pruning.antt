-- ===== src/Image/Entries/Pruning.antt =====
-- What `ImageCache.prune` deletes.
use derico_sandbox.Platform.{Platform}
use derico_sandbox.Prelude.Dict.{keys}
use derico_sandbox.Prelude.Sort.{insert_sorted, sorted}
use derico_sandbox.Prelude.Text.{str_le}
use derico_sandbox.Image.Entries.{
  CacheEntry, delete_instance, prune_entries, Clock, Instance, entries, prune,
}
use derico_sandbox.Prelude.{
  Bool, List, String, [], arith, filter, map, not, refl, ◌∷◌, ◌≡◌, ap, contains, eq_iff, nat_Eq,
  string_Eq, ◌&&◌, ◌==◌, ◌||◌, ◌∙◌,
}

abbrev pub by_key : String × CacheEntry → String × CacheEntry → Bool
by_key a b = str_le a.0 b.0

module _ (keeps : String → Bool) where
  abbrev pub dropped : List (String × CacheEntry) → List (String × CacheEntry)
  dropped es = filter (λ e. not (keeps e.0)) es

  prune_entries-dropped :
      (es : List (String × CacheEntry))
      → prune_entries keeps es ≡ (
        map (λ (e : String × CacheEntry). delete_instance e.1.instance_name) (dropped es),
        map (λ (e : String × CacheEntry). e.0) (dropped es),
      )
  unfolding prune_entries
  prune_entries-dropped [] = refl
  prune_entries-dropped ((k, e) ∷ es) = rw (prune_entries-dropped es) (ground arith)

  contains-dropped :
      (es : List (String × CacheEntry)) (k : String)
      → contains (keys (dropped es)) k ≡ (not (keeps k) && contains (keys es) k)
  contains-dropped [] k = ground arith
  contains-dropped ((j, e) ∷ es) k = ground (arith, contains-dropped es k, eq_iff k j)

contains-keys-insert :
    (a : String × CacheEntry) (es : List (String × CacheEntry)) (k : String)
    → contains (keys (insert_sorted by_key a es)) k ≡ (k == a.0 || contains (keys es) k)
unfolding insert_sorted
contains-keys-insert a [] k = refl
contains-keys-insert a (e ∷ es) k = ground (arith, contains-keys-insert a es k)

contains-keys-sorted :
    (es : List (String × CacheEntry)) (k : String)
    → contains (keys (sorted by_key es)) k ≡ contains (keys es) k
unfolding sorted
contains-keys-sorted [] k = refl
contains-keys-sorted (e ∷ es) k =
    contains-keys-insert e (sorted by_key es) k
    ∙ ap (λ b. k == e.0 || b) (contains-keys-sorted es k)

-- `prune` removes the entries of the listing whose keys are not to be kept, and no other, and it deletes
-- the instances of those that it removes and nothing else.
pub prune-removed :
    (platform : Platform) (clock : Clock) (keep : List String) (listing : List Instance)
    → let es = dropped (contains keep) (sorted by_key (entries platform clock listing)) in
      ((prune platform clock keep listing).0
        ≡ map (λ (e : String × CacheEntry). delete_instance e.1.instance_name) es)
      × ((prune platform clock keep listing).1 ≡ keys es)
      × ((k : String)
          → contains (prune platform clock keep listing).1 k
            ≡ (not (contains keep k) && contains (keys (entries platform clock listing)) k))
unfolding prune
prune-removed platform clock keep listing =
    let es = sorted by_key (entries platform clock listing) in
    let same = prune_entries-dropped (contains keep) es in
    (
      ap (λ p. p.0) same,
      ap (λ p. p.1) same,
      λ k.
          ap (λ p. contains p.1 k) same
          ∙ contains-dropped (contains keep) es k
          ∙ ap (λ b. not (contains keep k) && b)
              (contains-keys-sorted (entries platform clock listing) k),
    )
