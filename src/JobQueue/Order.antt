-- ===== src/JobQueue/Order.antt =====
-- The ORDER BY of the queue's SELECT statements sorts, and keeps the rows.
use pimio.Base.{
  ℕ, zero, suc, ◌≡◌, refl, ap, ◌⊎◌, inl, inr, Bool, true, false, Option, none, some, List, [], ◌∷◌,
  Memᴰ, arith, ltb, ◌==◌, if◌then◌else◌, Text, text_lt_trans, text_lt_asymm, All, All-mem, All-of,
  All-take, Bool-cases, take, length,
}
use pimio.Core.Job.{JobRecord, rank}
use pimio.JobQueue.{before_by_date, ordered_before, insert_ordered, order}

by_date_trans :
    (d e f : Option ℕ) (s t u : Text)
    → before_by_date e t d s ≡ false
    → before_by_date f u e t ≡ false
    → before_by_date f u d s ≡ false
by_date_trans none none none s t u h k = text_lt_trans s t u h k
by_date_trans none none (some z) s t u h k = refl
by_date_trans none (some y) none s t u h k = cc
by_date_trans none (some y) (some z) s t u h k = refl
by_date_trans (some x) none f s t u h k = cc
by_date_trans (some x) (some y) none s t u h k = cc
by_date_trans (some x) (some y) (some z) s t u h k = ground (arith, text_lt_trans s t u)

by_date_asymm :
    (d e : Option ℕ) (s t : Text) → before_by_date d s e t ≡ true → before_by_date e t d s ≡ false
by_date_asymm none none s t h = text_lt_asymm s t h
by_date_asymm none (some y) s t h = refl
by_date_asymm (some x) none s t h = cc
by_date_asymm (some x) (some y) s t h = ground (arith, text_lt_asymm s t)

abbrev ranked : ℕ → ℕ → Bool → Bool
ranked p q b = if p == q then b else ltb p q

ranked_trans :
    (p q r : ℕ) (b c d : Bool)
    → (b ≡ false → c ≡ false → d ≡ false)
    → ranked q p b ≡ false
    → ranked r q c ≡ false
    → ranked r p d ≡ false
ranked_trans p q r b c d f h k = ground arith

ranked_asymm :
    (p q : ℕ) (b c : Bool) → (b ≡ true → c ≡ false) → ranked p q b ≡ true → ranked q p c ≡ false
ranked_asymm p q b c f h = ground arith

-- What does not come before is transitive.
pub ordered_before_trans :
    (a b c : JobRecord)
    → ordered_before b a ≡ false
    → ordered_before c b ≡ false
    → ordered_before c a ≡ false
unfolding ordered_before
ordered_before_trans a b c =
    ranked_trans (rank a.priority) (rank b.priority) (rank c.priority) _ _ _
      (by_date_trans a.created_at b.created_at c.created_at a.id b.id c.id)

pub ordered_before_asymm :
    (a b : JobRecord) → ordered_before a b ≡ true → ordered_before b a ≡ false
unfolding ordered_before
ordered_before_asymm a b =
    ranked_asymm (rank a.priority) (rank b.priority) _ _
      (by_date_asymm a.created_at b.created_at a.id b.id)

-- Nobody comes before an earlier member.
abbrev pub IsOrdered : List JobRecord → Type 0
IsOrdered [] = Unit
IsOrdered (r ∷ rest) = All (λ s. ordered_before s r ≡ false) rest × IsOrdered rest

mem_step :
    {x : JobRecord} (r s : JobRecord) (rest tail : List JobRecord) (b : Bool)
    → (Memᴰ x tail → (x ≡ r) ⊎ Memᴰ x rest)
    → Memᴰ x (if b then s ∷ tail else r ∷ s ∷ rest)
    → (x ≡ r) ⊎ Memᴰ x (s ∷ rest)
mem_step r s rest tail true ih (Memᴰ.head e) = inr (Memᴰ.head e)
mem_step r s rest tail true ih (Memᴰ.tail m) = elim (ih m) [
  | inl e ↦ inl e
  | inr n ↦ inr (Memᴰ.tail n)
]
mem_step r s rest tail false ih (Memᴰ.head e) = inl e
mem_step r s rest tail false ih (Memᴰ.tail m) = inr m

mem_of_step :
    {x : JobRecord} (r s : JobRecord) (rest tail : List JobRecord) (b : Bool)
    → ((x ≡ r) ⊎ Memᴰ x rest → Memᴰ x tail)
    → (x ≡ r) ⊎ Memᴰ x (s ∷ rest)
    → Memᴰ x (if b then s ∷ tail else r ∷ s ∷ rest)
mem_of_step r s rest tail true ih (inl e) = Memᴰ.tail (ih (inl e))
mem_of_step r s rest tail true ih (inr (Memᴰ.head e)) = Memᴰ.head e
mem_of_step r s rest tail true ih (inr (Memᴰ.tail m)) = Memᴰ.tail (ih (inr m))
mem_of_step r s rest tail false ih (inl e) = Memᴰ.head e
mem_of_step r s rest tail false ih (inr m) = Memᴰ.tail m

mem-insert_ordered :
    {x : JobRecord} (r : JobRecord) (rows : List JobRecord)
    → Memᴰ x (insert_ordered r rows)
    → (x ≡ r) ⊎ Memᴰ x rows
unfolding insert_ordered
mem-insert_ordered r [] (Memᴰ.head e) = inl e
mem-insert_ordered r [] (Memᴰ.tail m) = inr m
mem-insert_ordered r (s ∷ rest) m =
    mem_step r s rest _ (ordered_before s r) (mem-insert_ordered r rest) m

mem_of_insert_ordered :
    {x : JobRecord} (r : JobRecord) (rows : List JobRecord)
    → (x ≡ r) ⊎ Memᴰ x rows
    → Memᴰ x (insert_ordered r rows)
unfolding insert_ordered
mem_of_insert_ordered r [] (inl e) = Memᴰ.head e
mem_of_insert_ordered r [] (inr m) = Memᴰ.tail m
mem_of_insert_ordered r (s ∷ rest) m =
    mem_of_step r s rest _ (ordered_before s r) (mem_of_insert_ordered r rest) m

pub mem-order : {x : JobRecord} (rows : List JobRecord) → Memᴰ x (order rows) → Memᴰ x rows
unfolding order
mem-order [] m = m
mem-order (r ∷ rest) m = elim (mem-insert_ordered r (order rest) m) [
  | inl e ↦ Memᴰ.head e
  | inr n ↦ Memᴰ.tail (mem-order rest n)
]

pub mem_of_order : {x : JobRecord} {rows : List JobRecord} → Memᴰ x rows → Memᴰ x (order rows)
unfolding order
mem_of_order {rows = []} m = elim m [ ]
mem_of_order {rows = r ∷ rest} (Memᴰ.head e) = mem_of_insert_ordered r (order rest) (inl e)
mem_of_order {rows = r ∷ rest} (Memᴰ.tail m) =
    mem_of_insert_ordered r (order rest) (inr (mem_of_order m))

insert_ordered-IsOrdered :
    (r : JobRecord) (rows : List JobRecord) → IsOrdered rows → IsOrdered (insert_ordered r rows)
unfolding insert_ordered
insert_ordered-IsOrdered r [] h = (tt, tt)
insert_ordered-IsOrdered r (s ∷ rest) h = elim (Bool-cases (ordered_before s r)) [
  | inl e ↦ rw e (
    All-of _ _ (λ x m. later e x (mem-insert_ordered r rest m)),
    insert_ordered-IsOrdered r rest h.1,
  )
  | inr e ↦ rw e ((e, All-of _ _ (λ x m. ordered_before_trans r s x e (All-mem _ h.0 m))), h)
]
  where
    later :
        ordered_before s r ≡ true
        → (x : JobRecord) → (x ≡ r) ⊎ Memᴰ x rest
        → ordered_before x s ≡ false
    later e x (inl p) = rw p (ordered_before_asymm s r e)
    later e x (inr m) = All-mem _ h.0 m

-- The rows come out in the order of the statement.
pub order-IsOrdered : (rows : List JobRecord) → IsOrdered (order rows)
unfolding order
order-IsOrdered [] = tt
order-IsOrdered (r ∷ rest) = insert_ordered-IsOrdered r (order rest) (order-IsOrdered rest)

pub take-IsOrdered : (n : ℕ) (rows : List JobRecord) → IsOrdered rows → IsOrdered (take n rows)
take-IsOrdered zero rows h = tt
take-IsOrdered (suc n) [] h = tt
take-IsOrdered (suc n) (r ∷ rest) h = (All-take _ n rest h.0, take-IsOrdered n rest h.1)

-- A row that LIMIT leaves out comes before none that it lets through, and LIMIT is used up.
pub take-best :
    (n : ℕ) {x : JobRecord} (rows : List JobRecord)
    → IsOrdered rows
    → Memᴰ x rows
    → Memᴰ x (take n rows)
      ⊎ (All (λ r. ordered_before x r ≡ false) (take n rows) × (length (take n rows) ≡ n))
take-best zero rows h m = inr (tt, refl)
take-best (suc n) [] h m = elim m [ ]
take-best (suc n) (r ∷ rest) h (Memᴰ.head e) = inl (Memᴰ.head e)
take-best (suc n) (r ∷ rest) h (Memᴰ.tail m) = elim (take-best n rest h.1 m) [
  | inl k ↦ inl (Memᴰ.tail k)
  | inr (all, full) ↦ inr ((All-mem _ h.0 m, all), ap suc full)
]
