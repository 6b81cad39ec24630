-- ===== src/Scan/Ends.antt =====
-- src/scan/src/scanner.cpp, collectEntries: the walk ends if the directories that it follows have no
-- cycle.
use pimio.Core.Error.{Error, is_error}
use pimio.Scan.Files.{DirectoryEntry, sort_entries, collect_one, collect_each, collect_entries}
use pimio.Base.{
  ℕ, zero, suc, ◌<◌, ◌≡◌, ◌↔◌, refl, inl, inr, Bool, true, not, ◌&&◌, Option, some, List, [], ◌∷◌,
  ◌++◌, Memᴰ, Text, if_cases, Bool-cases, arith,
}
use pimio.Scan.Sorting.{mem-sort_entries}
use pimio.Scan.Walk.{Below, IsPassed, IsListed, collect_entries-Collects}

module _ (list_directory : Text → List DirectoryEntry × Error) (follow_symlinks : Bool) where
  abbrev Finishes :
      (Text → List DirectoryEntry → Option (List DirectoryEntry)) → DirectoryEntry → Type 0
  Finishes collect e =
      IsPassed list_directory follow_symlinks e
      → e.is_directory ≡ true
      → (result : List DirectoryEntry)
      → (out : List DirectoryEntry) × (collect e.absolute_path result ≡ some out)

  collect_one-Finishes :
      (collect : Text → List DirectoryEntry → Option (List DirectoryEntry)) (e : DirectoryEntry)
      (result : List DirectoryEntry)
      → Finishes collect e
      → (out : List DirectoryEntry) × (collect_one list_directory follow_symlinks collect e result
          ≡ some out)
  unfolding collect_one
  collect_one-Finishes collect e result finishes =
      if_cases (λ (o : Option (List DirectoryEntry)). (out : List DirectoryEntry) × (o ≡ some out))
        (e.is_symbolic_link && not follow_symlinks) _ _ (λ _. (result, refl))
        (λ passed.
          if_cases
            (λ (o : Option (List DirectoryEntry)). (out : List DirectoryEntry) × (o ≡ some out))
            e.is_directory _ _ (λ d. finishes passed d result) (λ _. (result ++ e ∷ [], refl)))

  collect_each-Finishes :
      (collect : Text → List DirectoryEntry → Option (List DirectoryEntry))
      (es result : List DirectoryEntry)
      → ((e : DirectoryEntry) → Memᴰ e es → Finishes collect e)
      → (out : List DirectoryEntry) × (collect_each list_directory follow_symlinks collect es result
          ≡ some out)
  unfolding collect_each
  collect_each-Finishes collect [] result finishes = (result, refl)
  collect_each-Finishes collect (e ∷ es) result finishes =
      let (found, one) = collect_one-Finishes collect e result (finishes e (Memᴰ.head refl)) in
      let (out, rest) = collect_each-Finishes collect es found (λ d m. finishes d (Memᴰ.tail m)) in
      (out, rw (one, collect_each) rest)

  -- No chain of followed directories is longer than the height of its first.
  abbrev pub IsAcyclic : (Text → ℕ) → Type 0
  IsAcyclic height =
      (dir : Text) (d : DirectoryEntry)
      → IsListed list_directory follow_symlinks d dir
      → IsPassed list_directory follow_symlinks d
      → d.is_directory ≡ true
      → height d.absolute_path < height dir

  pub collect_entries-ends :
      (height : Text → ℕ) (acyclic : IsAcyclic height) (fuel : ℕ) (dir : Text)
      (result : List DirectoryEntry)
      → height dir < fuel
      → (out : List DirectoryEntry) × (collect_entries list_directory follow_symlinks fuel dir
            result
          ≡ some out)
  unfolding collect_entries
  collect_entries-ends height acyclic zero dir result h = elim h [ ]
  collect_entries-ends height acyclic (suc fuel) dir result h =
      elim (Bool-cases (is_error (list_directory dir).1)) [
        | inl failed ↦ (result, rw (failed, collect_entries) refl)
        | inr ok ↦
            let (out, each) =
              collect_each-Finishes (collect_entries list_directory follow_symlinks fuel)
                (sort_entries (list_directory dir).0) result
                (λ d m p t r.
                  let below =
                    acyclic dir d (ok, (mem-sort_entries d (list_directory dir).0).0 m) p t in
                  collect_entries-ends height acyclic fuel d.absolute_path r (omega arith)) in
            (out, rw (ok, collect_entries) each)
      ]

  -- If the directories that the walk follows have no cycle, the walk ends, and finds exactly the
  -- files below the root: those listed in it or in a followed directory below it, of the directories
  -- that can be listed, without symbolic links unless links are followed. `height` bounds the
  -- chains of followed directories.
  pub collect_entries-Below :
      (height : Text → ℕ) (fuel : ℕ) (root : Text)
      → IsAcyclic height
      → height root < fuel
      → (found : List DirectoryEntry) × (collect_entries list_directory follow_symlinks fuel root []
          ≡ some found)
        × ((x : DirectoryEntry) → (Memᴰ x found ↔ Below list_directory follow_symlinks x root))
  collect_entries-Below height fuel root acyclic deep =
      let (found, q) = collect_entries-ends height acyclic fuel root [] deep in
      (
        found,
        q,
        λ x.
            let (there, back) =
              collect_entries-Collects list_directory follow_symlinks fuel x root [] found q in
            (λ m. elim (there m) [ inl n ↦ elim n [ ] | inr b ↦ b ], λ b. back (inr b)),
      )
