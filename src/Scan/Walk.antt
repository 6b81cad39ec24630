-- ===== src/Scan/Walk.antt =====
-- src/scan/src/scanner.cpp, collectEntries: what the walk collects, whatever its depth.
use pimio.Core.Error.{Error, is_error}
use pimio.Scan.Files.{DirectoryEntry, sort_entries, collect_one, collect_each, collect_entries}
use mathlib.Core.Option.{some-injective}
use pimio.Base.{
  true≢false, ◌∙◌, ℕ, zero, suc, ◌≡◌, ◌↔◌, ◌⊎◌, refl, sym, subst, inl, inr, Bool, true, false, not,
  ◌&&◌, Option, none, some, List, [], ◌∷◌, ◌++◌, Memᴰ, Text, if◌then◌else◌, mem_append_left,
}
use pimio.Scan.Sorting.{mem-append_one, mem_append_right, mem-sort_entries}

module _ (list_directory : Text → List DirectoryEntry × Error) (follow_symlinks : Bool) where
  -- The walk passes an entry that is no link, or any if links are followed.
  abbrev pub IsPassed : DirectoryEntry → Type 0
  IsPassed e = (e.is_symbolic_link && not follow_symlinks) ≡ false

  abbrev pub IsListed : DirectoryEntry → Text → Type 0
  IsListed e dir = (is_error (list_directory dir).1 ≡ false) × Memᴰ e (list_directory dir).0

  -- The files below a directory: those listed in it, and those below a directory listed in it.
  pub data Below (x : DirectoryEntry) : Text → Type 0 where
    here : {dir : Text} → IsListed x dir → IsPassed x → x.is_directory ≡ false → Below x dir
    deeper :
        {dir : Text} (d : DirectoryEntry)
        → IsListed d dir
        → IsPassed d
        → d.is_directory ≡ true
        → Below x d.absolute_path
        → Below x dir

  -- What one entry adds.
  abbrev Adds : DirectoryEntry → DirectoryEntry → Type 0
  Adds e x =
      IsPassed e
      × (((e.is_directory ≡ false) × (x ≡ e)) ⊎ ((e.is_directory ≡ true) × Below x e.absolute_path))

  abbrev pub Collects : (Text → List DirectoryEntry → Option (List DirectoryEntry)) → Type 0
  Collects collect =
      (x : DirectoryEntry) (dir : Text) (result out : List DirectoryEntry)
      → collect dir result ≡ some out
      → (Memᴰ x out ↔ (Memᴰ x result ⊎ Below x dir))

  module _ (collect : Text → List DirectoryEntry → Option (List DirectoryEntry))
      (collects : Collects collect) (x : DirectoryEntry) where
    collect_one_by :
        (e : DirectoryEntry) (result out : List DirectoryEntry) (link directory : Bool)
        → (e.is_symbolic_link && not follow_symlinks) ≡ link
        → e.is_directory ≡ directory
        → (if link
            then some result
            else if directory
            then collect e.absolute_path result
            else some (result ++ e ∷ []))
          ≡ some out
        → (Memᴰ x out ↔ (Memᴰ x result ⊎ Adds e x))
    collect_one_by e result out true directory l d h =
        subst (λ (o : List DirectoryEntry). Memᴰ x o ↔ (Memᴰ x result ⊎ Adds e x))
          (some-injective result out h)
          (λ m. inl m, λ s. elim s [ inl m ↦ m | inr a ↦ elim (true≢false (sym l ∙ a.0)) [ ] ])
    collect_one_by e result out false true l d h =
        let (there, back) = collects x e.absolute_path result out h in
        (
          λ m. elim (there m) [ inl n ↦ inl n | inr b ↦ inr (l, inr (d, b)) ],
          λ s. back (elim s [
            | inl n ↦ inl n
            | inr a ↦ elim (a.1) [ inl f ↦ elim (true≢false (sym d ∙ f.0)) [ ] | inr b ↦ inr (b.1) ]
          ]),
        )
    collect_one_by e result out false false l d h =
        subst (λ (o : List DirectoryEntry). Memᴰ x o ↔ (Memᴰ x result ⊎ Adds e x))
          (some-injective (result ++ e ∷ []) out h)
          (
            λ m. elim (mem-append_one result m) [ inl n ↦ inl n | inr q ↦ inr (l, inl (d, q)) ],
            λ s. elim s [
              | inl n ↦ mem_append_left (e ∷ []) n
              | inr a ↦ elim (a.1) [
                | inl f ↦ mem_append_right result (Memᴰ.head (f.1))
                | inr b ↦ elim (true≢false (sym (b.0) ∙ d)) [ ]
              ]
            ],
          )

    abbrev AddsSome : List DirectoryEntry → Type 0
    AddsSome es = (e : DirectoryEntry) × Memᴰ e es × Adds e x

    joined :
        (e : DirectoryEntry) (es result out : List DirectoryEntry)
        (o : Option (List DirectoryEntry))
        → ((found : List DirectoryEntry)
            → o ≡ some found
            → (Memᴰ x found ↔ (Memᴰ x result ⊎ Adds e x)))
        → ((found : List DirectoryEntry)
            → collect_each list_directory follow_symlinks collect es found ≡ some out
            → (Memᴰ x out ↔ (Memᴰ x found ⊎ AddsSome es)))
        → elim o [
          | none ↦ none
          | some found ↦ collect_each list_directory follow_symlinks collect es found
        ]
          ≡ some out
        → (Memᴰ x out ↔ (Memᴰ x result ⊎ AddsSome (e ∷ es)))
    joined e es result out none one each h = cc
    joined e es result out (some found) one each h =
        let (there, back) = each found h in
        let (there_one, back_one) = one found refl in
        (
          λ m. elim (there m) [
            | inl n ↦ elim (there_one n) [ inl k ↦ inl k | inr a ↦ inr (e, Memᴰ.head refl, a) ]
            | inr a ↦ inr (a.0, Memᴰ.tail (a.1), a.2)
          ],
          λ s. back (elim s [ inl n ↦ inl (back_one (inl n)) | inr a ↦ pick a.0 a.1 a.2 ]),
        )
      where
        pick : (e' : DirectoryEntry) → Memᴰ e' (e ∷ es) → Adds e' x → Memᴰ x found ⊎ AddsSome es
        pick e' (Memᴰ.head p) a =
            inl ((one found refl).1 (inr (subst (λ (z : DirectoryEntry). Adds z x) p a)))
        pick e' (Memᴰ.tail m) a = inr (e', m, a)

    collect_each_adds :
        (es result out : List DirectoryEntry)
        → collect_each list_directory follow_symlinks collect es result ≡ some out
        → (Memᴰ x out ↔ (Memᴰ x result ⊎ AddsSome es))
    unfolding collect_each
    collect_each_adds [] result out h =
        subst (λ (o : List DirectoryEntry). Memᴰ x o ↔ (Memᴰ x result ⊎ AddsSome []))
          (some-injective result out h)
          (λ m. inl m, λ s. elim s [ inl m ↦ m | inr a ↦ elim (a.1) [ ] ])
    collect_each_adds (e ∷ es) result out h =
        joined e es result out (collect_one list_directory follow_symlinks collect e result)
          (λ found q. collect_one_by e result found _ _ refl refl q)
          (λ found q. collect_each_adds es found out q) h

  Below-listed :
      {x : DirectoryEntry} {dir : Text} → Below x dir → is_error (list_directory dir).1 ≡ false
  Below-listed (here l p f) = l.0
  Below-listed (deeper d l p t b) = l.0

  Adds-Below : {x e : DirectoryEntry} {dir : Text} → IsListed e dir → Adds e x → Below x dir
  Adds-Below {x} {e} {dir} l (p, inl (f, q)) =
      subst (λ (z : DirectoryEntry). Below z dir) (sym q) (here l p f)
  Adds-Below {x} {e} {dir} l (p, inr (t, b)) = deeper e l p t b

  Below-Adds :
      {x : DirectoryEntry} {dir : Text}
      → Below x dir
      → (e : DirectoryEntry) × Memᴰ e (list_directory dir).0 × Adds e x
  Below-Adds {x} (here l p f) = (x, l.1, (p, inl (f, refl)))
  Below-Adds (deeper d l p t b) = (d, l.1, (p, inr (t, b)))

  pub collect_entries-Collects :
      (fuel : ℕ) → Collects (collect_entries list_directory follow_symlinks fuel)
  unfolding collect_entries
  collect_entries-Collects zero x dir result out h = cc
  collect_entries-Collects (suc fuel) x dir result out h =
      listed (collect_entries-Collects fuel) (is_error (list_directory dir).1) refl h
    where
      listed :
          Collects (collect_entries list_directory follow_symlinks fuel)
          → (b : Bool) → is_error (list_directory dir).1 ≡ b
          → elim b [
            | true ↦ some result
            | false ↦
                collect_each list_directory follow_symlinks
                  (collect_entries list_directory follow_symlinks fuel)
                  (sort_entries (list_directory dir).0)
                  result
          ]
            ≡ some out
          → (Memᴰ x out ↔ (Memᴰ x result ⊎ Below x dir))
      listed ih true e q =
          subst (λ (o : List DirectoryEntry). Memᴰ x o ↔ (Memᴰ x result ⊎ Below x dir))
            (some-injective result out q)
            (
              λ m. inl m,
              λ s. elim s [ inl m ↦ m | inr b ↦ elim (true≢false (sym e ∙ Below-listed b)) [ ] ],
            )
      listed ih false e q =
          let es = (list_directory dir).0 in
          let (there, back) =
            collect_each_adds (collect_entries list_directory follow_symlinks fuel) ih x
              (sort_entries es) result out q in
          (
            λ m. elim (there m) [
              | inl n ↦ inl n
              | inr a ↦ inr (Adds-Below (e, (mem-sort_entries a.0 es).0 (a.1)) (a.2))
            ],
            λ s. back (elim s [
              | inl n ↦ inl n
              | inr b ↦ let (d, m, a) = Below-Adds b in inr (d, (mem-sort_entries d es).1 m, a)
            ]),
          )
