-- ===== src/Scan/Sorting.antt =====
-- src/scan/src/scanner.cpp: sorting the entries of a directory keeps them.
use pimio.Scan.Files.{DirectoryEntry, insert_sorted, sort_entries}
use pimio.Base.{◌≡◌, ◌↔◌, ◌⊎◌, inl, inr, List, [], ◌∷◌, ◌++◌, Memᴰ, text_lt, if_cases}

mem-cons_swap :
    {x e y : DirectoryEntry} {ys zs : List DirectoryEntry}
    → (Memᴰ x zs ↔ Memᴰ x (e ∷ ys))
    → (Memᴰ x (y ∷ zs) ↔ Memᴰ x (e ∷ y ∷ ys))
mem-cons_swap {x} {e} {y} {ys} {zs} ih = (there, back)
  where
    swap : Memᴰ x (e ∷ ys) → Memᴰ x (e ∷ y ∷ ys)
    swap (Memᴰ.head p) = Memᴰ.head p
    swap (Memᴰ.tail n) = Memᴰ.tail (Memᴰ.tail n)

    there : Memᴰ x (y ∷ zs) → Memᴰ x (e ∷ y ∷ ys)
    there (Memᴰ.head p) = Memᴰ.tail (Memᴰ.head p)
    there (Memᴰ.tail m) = swap (ih.0 m)

    back : Memᴰ x (e ∷ y ∷ ys) → Memᴰ x (y ∷ zs)
    back (Memᴰ.head p) = Memᴰ.tail (ih.1 (Memᴰ.head p))
    back (Memᴰ.tail (Memᴰ.head p)) = Memᴰ.head p
    back (Memᴰ.tail (Memᴰ.tail n)) = Memᴰ.tail (ih.1 (Memᴰ.tail n))

pub mem-append_one :
    {x e : DirectoryEntry} (xs : List DirectoryEntry) → Memᴰ x (xs ++ e ∷ []) → Memᴰ x xs ⊎ (x ≡ e)
mem-append_one [] (Memᴰ.head p) = inr p
mem-append_one [] (Memᴰ.tail m) = elim m [ ]
mem-append_one (y ∷ ys) (Memᴰ.head p) = inl (Memᴰ.head p)
mem-append_one (y ∷ ys) (Memᴰ.tail m) = elim (mem-append_one ys m) [
  | inl n ↦ inl (Memᴰ.tail n)
  | inr p ↦ inr p
]

pub mem_append_right :
    {x : DirectoryEntry} (xs : List DirectoryEntry) {ys : List DirectoryEntry}
    → Memᴰ x ys
    → Memᴰ x (xs ++ ys)
mem_append_right [] m = m
mem_append_right (y ∷ xs) m = Memᴰ.tail (mem_append_right xs m)

mem-insert_sorted :
    (e x : DirectoryEntry) (es : List DirectoryEntry)
    → (Memᴰ x (insert_sorted e es) ↔ Memᴰ x (e ∷ es))
unfolding insert_sorted
mem-insert_sorted e x [] = (λ m. m, λ m. m)
mem-insert_sorted e x (y ∷ ys) =
    if_cases (λ (l : List DirectoryEntry). Memᴰ x l ↔ Memᴰ x (e ∷ y ∷ ys))
      (text_lt y.file_name e.file_name) _ _ (λ _. mem-cons_swap (mem-insert_sorted e x ys))
      (λ _. (λ m. m, λ m. m))

pub mem-sort_entries :
    (x : DirectoryEntry) (es : List DirectoryEntry) → (Memᴰ x (sort_entries es) ↔ Memᴰ x es)
unfolding sort_entries
mem-sort_entries x [] = (λ m. m, λ m. m)
mem-sort_entries x (e ∷ es) =
    let (there, back) = mem-insert_sorted e x (sort_entries es) in
    let (in_rest, of_rest) = mem-sort_entries x es in
    (λ m. cons_map in_rest (there m), λ m. back (cons_map of_rest m))
  where
    cons_map :
        {ys zs : List DirectoryEntry} → (Memᴰ x ys → Memᴰ x zs) → Memᴰ x (e ∷ ys) → Memᴰ x (e ∷ zs)
    cons_map f (Memᴰ.head p) = Memᴰ.head p
    cons_map f (Memᴰ.tail m) = Memᴰ.tail (f m)
