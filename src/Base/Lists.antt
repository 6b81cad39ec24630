-- ===== src/Base/Lists.antt =====
-- Lists measured by native numbers, and what holds of all their members.
use Prim.Native.Nat.{ℕ, zero, suc, ◌+◌, ◌≤◌}
use mathlib.Core.Path.{◌≡◌, refl, sym, ap, subst}
use mathlib.Core.Bool.{Bool, true, false}
use mathlib.Core.List.{List, [], ◌∷◌, ◌++◌, map, Memᴰ}
use native.Mathlib.Omega.{arith}
use mathlib.Core.Logic.{inl, inr}
use pimio.Base.Tests.{Bool-cases, if◌then◌else◌}

module _ {ℓ} {A : Type ℓ} where
  abbrev pub length : List A → ℕ
  length [] = 0
  length (x ∷ xs) = suc (length xs)

  abbrev pub take : ℕ → List A → List A
  take zero xs = []
  take (suc n) [] = []
  take (suc n) (x ∷ xs) = x ∷ take n xs

  abbrev pub drop : ℕ → List A → List A
  drop zero xs = xs
  drop (suc n) [] = []
  drop (suc n) (x ∷ xs) = drop n xs

  -- The members that pass a test, in their order.
  abbrev pub filter : (A → Bool) → List A → List A
  filter p [] = []
  filter p (x ∷ xs) = if p x then x ∷ filter p xs else filter p xs

  abbrev pub count : (A → Bool) → List A → ℕ
  count p [] = 0
  count p (x ∷ xs) = if p x then suc (count p xs) else count p xs

  abbrev pub any : (A → Bool) → List A → Bool
  any p [] = false
  any p (x ∷ xs) = if p x then true else any p xs

  abbrev pub All {κ} : (A → Type κ) → List A → Type κ
  All P [] = Unit
  All P (x ∷ xs) = P x × All P xs

  pub length-take-le : (n : ℕ) (xs : List A) → length (take n xs) ≤ n
  length-take-le zero xs = omega arith
  length-take-le (suc n) [] = omega arith
  length-take-le (suc n) (x ∷ xs) = omega (arith, length-take-le n xs)

  pub length-append : (xs ys : List A) → length (xs ++ ys) ≡ length xs + length ys
  length-append [] ys = omega arith
  length-append (x ∷ xs) ys = omega (arith, length-append xs ys)

module _ {ℓ κ} {A : Type ℓ} (P : A → Type κ) where
  pub All-mem : {a : A} {xs : List A} → All P xs → Memᴰ a xs → P a
  All-mem h (Memᴰ.head e) = subst P (sym e) h.0
  All-mem h (Memᴰ.tail m) = All-mem h.1 m

  pub All-of : (xs : List A) → ((a : A) → Memᴰ a xs → P a) → All P xs
  All-of [] f = tt
  All-of (x ∷ xs) f = (f x (Memᴰ.head refl), All-of xs (λ a m. f a (Memᴰ.tail m)))

  pub All-take : (n : ℕ) (xs : List A) → All P xs → All P (take n xs)
  All-take zero xs h = tt
  All-take (suc n) [] h = tt
  All-take (suc n) (x ∷ xs) h = (h.0, All-take n xs h.1)

  pub All-append : (xs ys : List A) → All P xs → All P ys → All P (xs ++ ys)
  All-append [] ys h k = k
  All-append (x ∷ xs) ys h k = (h.0, All-append xs ys h.1 k)

-- Members of lists that are filtered, mapped and joined.
module _ {ℓ} {A : Type ℓ} where
  mem_keep :
      (p : A → Bool) {a : A} (x : A) (xs : List A) (b : Bool)
      → p x ≡ b
      → (Memᴰ a (filter p xs) → Memᴰ a xs × (p a ≡ true))
      → Memᴰ a (if b then x ∷ filter p xs else filter p xs)
      → Memᴰ a (x ∷ xs) × (p a ≡ true)
  mem_keep p x xs true e ih (Memᴰ.head q) = (Memᴰ.head q, rw q e)
  mem_keep p x xs true e ih (Memᴰ.tail m) = (Memᴰ.tail (ih m).0, (ih m).1)
  mem_keep p x xs false e ih m = (Memᴰ.tail (ih m).0, (ih m).1)

  pub mem-filter :
      (p : A → Bool) {a : A} (xs : List A) → Memᴰ a (filter p xs) → Memᴰ a xs × (p a ≡ true)
  mem-filter p [] m = elim m [ ]
  mem-filter p (x ∷ xs) m = mem_keep p x xs (p x) refl (mem-filter p xs) m

  mem_cons_of :
      {a : A} (x : A) (xs : List A) (b : Bool) → Memᴰ a xs → Memᴰ a (if b then x ∷ xs else xs)
  mem_cons_of x xs true m = Memᴰ.tail m
  mem_cons_of x xs false m = m

  pub mem_of_filter :
      (p : A → Bool) {a : A} {xs : List A} → Memᴰ a xs → p a ≡ true → Memᴰ a (filter p xs)
  mem_of_filter p {xs = []} m h = elim m [ ]
  mem_of_filter p {xs = x ∷ xs} (Memᴰ.head e) h =
      let e' : p x ≡ true = subst (λ z. p z ≡ true) e h in rw e' (Memᴰ.head e)
  mem_of_filter p {xs = x ∷ xs} (Memᴰ.tail m) h = mem_cons_of x _ (p x) (mem_of_filter p m h)

  pub mem-take : (n : ℕ) {a : A} (xs : List A) → Memᴰ a (take n xs) → Memᴰ a xs
  mem-take zero xs m = elim m [ ]
  mem-take (suc n) [] m = elim m [ ]
  mem-take (suc n) (x ∷ xs) (Memᴰ.head e) = Memᴰ.head e
  mem-take (suc n) (x ∷ xs) (Memᴰ.tail m) = Memᴰ.tail (mem-take n xs m)

  pub mem_of_map {κ} :
      {B : Type κ} (f : A → B) {a : A} {xs : List A} → Memᴰ a xs → Memᴰ (f a) (map f xs)
  mem_of_map f (Memᴰ.head e) = Memᴰ.head (ap f e)
  mem_of_map f (Memᴰ.tail m) = Memᴰ.tail (mem_of_map f m)

  pub mem_append_left : {a : A} {xs : List A} (ys : List A) → Memᴰ a xs → Memᴰ a (xs ++ ys)
  mem_append_left ys (Memᴰ.head e) = Memᴰ.head e
  mem_append_left ys (Memᴰ.tail m) = Memᴰ.tail (mem_append_left ys m)

  -- A test that some member passes, and one that none does.
  pub any_of_mem : (p : A → Bool) {a : A} {xs : List A} → Memᴰ a xs → p a ≡ true → any p xs ≡ true
  any_of_mem p {xs = []} m h = elim m [ ]
  any_of_mem p {xs = x ∷ xs} (Memᴰ.head e) h =
      let e' : p x ≡ true = subst (λ z. p z ≡ true) e h in rw e'
  any_of_mem p {xs = x ∷ xs} (Memᴰ.tail m) h = elim (Bool-cases (p x)) [
    | inl e ↦ rw e
    | inr e ↦ rw e (any_of_mem p m h)
  ]

  pub mem_of_any :
      (p : A → Bool) (xs : List A) → any p xs ≡ true → (a : A) × Memᴰ a xs × (p a ≡ true)
  mem_of_any p [] h = cc
  mem_of_any p (x ∷ xs) h = elim (Bool-cases (p x)) [
    | inl e ↦ (x, Memᴰ.head refl, e)
    | inr e ↦ let (a, m, k) = mem_of_any p xs (rw e at h) in (a, Memᴰ.tail m, k)
  ]

pub mem-map {ℓ κ} :
    {A : Type ℓ} {B : Type κ} (f : A → B) {b : B} (xs : List A)
    → Memᴰ b (map f xs)
    → (a : A) × Memᴰ a xs × (b ≡ f a)
mem-map f [] m = elim m [ ]
mem-map f (x ∷ xs) (Memᴰ.head e) = (x, Memᴰ.head refl, e)
mem-map f (x ∷ xs) (Memᴰ.tail m) = let (a, n, e) = mem-map f xs m in (a, Memᴰ.tail n, e)
