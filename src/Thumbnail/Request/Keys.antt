-- ===== src/Thumbnail/Request/Keys.antt =====
-- The cache key of src/core/src/media_request.cpp tells apart the requests whose bytes may differ.
use pimio.Store.{ContentFingerprint, is_valid}
use pimio.Thumbnail.Request.{
  MediaRequestKind, thumbnail, preview, video_frame, MediaRequest, kind_to_string, fingerprint_key,
  cache_key, QStringArg,
}
use mathlib.Core.List.{append_assoc, append-nil, head-eq_of_cons-eq, tail-eq_of_cons-eq}
use pimio.Base.{
  ℕ, ◌≡◌, refl, sym, ◌∙◌, true, false, [], ◌∷◌, ◌++◌, arith, ◌==◌, any, ℤ, Text, ap, ◌≤◌, ◌<◌, ◌+◌,
  Bool, not, ◌&&◌, ◌||◌, leb, ltb, codes,
}

abbrev pub Lacks : ℕ → Text → Type 0
Lacks c t = any (λ (x : ℕ). x == c) t ≡ false

-- What stands before the first of a character, and what stands behind it.
split_at :
    (c : ℕ) (p q s t : Text) → Lacks c p → Lacks c q → p ++ c ∷ s ≡ q ++ c ∷ t → (p ≡ q) × (s ≡ t)
split_at c [] [] s t h k e = (refl, cc)
split_at c [] (y ∷ q) s t h k e = let same : c ≡ y = head-eq_of_cons-eq e in ground (arith, same, k)
split_at c (x ∷ p) [] s t h k e = let same : x ≡ c = head-eq_of_cons-eq e in ground (arith, same, h)
split_at c (x ∷ p) (y ∷ q) s t h k e =
    let same : x ≡ y = head-eq_of_cons-eq e in
    let rest = split_at c p q s t (ground (arith, h)) (ground (arith, k)) (tail-eq_of_cons-eq e) in
    (ap2 same rest.0, rest.1)
  where
    ap2 : {x y : ℕ} {p q : Text} → x ≡ y → p ≡ q → x ∷ p ≡ y ∷ q
    ap2 e f = cc

Lacks-append : (c : ℕ) (p q : Text) → Lacks c p → Lacks c q → Lacks c (p ++ q)
Lacks-append c [] q h k = k
Lacks-append c (x ∷ p) q h k = ground (arith, Lacks-append c p q, h, k)

-- A valid fingerprint whose parts can be told apart in its key, and which brings in no '%' that a later
-- QString::arg would take for a place.
pub record IsPlain (f : ContentFingerprint) : Type 0 where
  pub valid : is_valid f ≡ true
  pub no_dash : Lacks 45 f.algorithm
  pub no_slash : Lacks 47 f.algorithm × Lacks 47 f.digest
  pub no_percent : Lacks 37 f.algorithm × Lacks 37 f.digest

abbrev starts_with_digit : Text → Bool
starts_with_digit [] = false
starts_with_digit (c ∷ s) = leb 48 c && leb c 57

abbrev is_place_after : ℕ → Text → Bool
is_place_after k [] = false
is_place_after k (c ∷ s) = ltb (48 + k) c && leb c 57 && not (starts_with_digit s)

-- Each '%' of a text begins a place of one digit, whose number is more than k.
abbrev places_after : ℕ → Text → Bool
places_after k [] = true
places_after k (c ∷ s) = (not (c == 37) || is_place_after k s) && places_after k s

-- What may follow the place with the number k.
abbrev pub follows : ℕ → Text → Bool
follows k s = not (starts_with_digit s) && places_after k s

-- What the documentation of QString::arg says of a template whose places are single: the place with
-- the lowest number is replaced, and for two texts at once the lowest two. An integer is put in by its
-- text, a sign and digits, another for each integer.
pub record IsArg (arg : QStringArg) (num : ℤ → Text) : Type 0 where
  pub texts_put :
      (j k : ℕ) (p m s a b : Text)
      → (1 ≤ j) × (j < k) × (k ≤ 9)
      → Lacks 37 p
      → Lacks 37 m × (starts_with_digit m ≡ false)
      → follows k s ≡ true
      → QStringArg.texts arg (p ++ 37 ∷ (48 + j) ∷ (m ++ 37 ∷ (48 + k) ∷ s)) a b
        ≡ p ++ a ++ m ++ b ++ s
  pub int_put :
      (k : ℕ) (p s : Text) (n : ℤ)
      → (1 ≤ k) × (k ≤ 9)
      → Lacks 37 p
      → follows k s ≡ true
      → QStringArg.int arg (p ++ 37 ∷ (48 + k) ∷ s) n ≡ p ++ num n ++ s
  pub injective : (m n : ℤ) → num m ≡ num n → m ≡ n
  pub plain : (n : ℤ) → Lacks 47 (num n) × Lacks 120 (num n) × Lacks 37 (num n)

kind-Lacks : (k : MediaRequestKind) → Lacks 47 (kind_to_string k) × Lacks 37 (kind_to_string k)
unfolding kind_to_string
kind-Lacks thumbnail = (refl, refl)
kind-Lacks preview = (refl, refl)
kind-Lacks video_frame = (refl, refl)

kind-injective : (k l : MediaRequestKind) → kind_to_string k ≡ kind_to_string l → k ≡ l
unfolding kind_to_string
kind-injective thumbnail thumbnail e = refl
kind-injective thumbnail preview e = cc
kind-injective thumbnail video_frame e = cc
kind-injective preview thumbnail e = cc
kind-injective preview preview e = refl
kind-injective preview video_frame e = cc
kind-injective video_frame thumbnail e = cc
kind-injective video_frame preview e = cc
kind-injective video_frame video_frame e = refl

key_text : (f : ContentFingerprint) → IsPlain f → fingerprint_key f ≡ f.algorithm ++ 45 ∷ f.digest
unfolding fingerprint_key
key_text f h = rw h.valid (append_assoc f.algorithm (45 ∷ []) f.digest)

key-Lacks :
    (f : ContentFingerprint)
    → IsPlain f
    → Lacks 47 (fingerprint_key f) × Lacks 37 (fingerprint_key f)
key-Lacks f h = rw (key_text f h) (
  Lacks-append 47 f.algorithm (45 ∷ f.digest) h.no_slash.0 h.no_slash.1,
  Lacks-append 37 f.algorithm (45 ∷ f.digest) h.no_percent.0 h.no_percent.1,
)

fingerprint-injective :
    (f g : ContentFingerprint)
    → IsPlain f
    → IsPlain g
    → fingerprint_key f ≡ fingerprint_key g
    → f ≡ g
fingerprint-injective f g h k e =
    let parts =
      split_at 45 f.algorithm g.algorithm f.digest g.digest h.no_dash k.no_dash
        (sym (key_text f h) ∙ e ∙ key_text g k) in
    same_parts parts.0 parts.1
  where
    same_parts : f.algorithm ≡ g.algorithm → f.digest ≡ g.digest → f ≡ g
    same_parts a d = cc

module _ (arg : QStringArg) (num : ℤ → Text) (d : IsArg arg num) where
  -- An integer put in at the next place of a template, with the text up to the place after it.
  put_next :
      (k : ℕ) (p m s : Text) (n : ℤ)
      → (1 ≤ k) × (k ≤ 9)
      → Lacks 37 p
      → follows k (m ++ s) ≡ true
      → QStringArg.int arg (p ++ 37 ∷ (48 + k) ∷ (m ++ s)) n ≡ (p ++ num n ++ m) ++ s
  put_next k p m s n small lacks later =
      d.int_put k p (m ++ s) n small lacks later ∙ simp append_assoc

  next-Lacks : (p m : Text) (n : ℤ) → Lacks 37 p → Lacks 37 m → Lacks 37 (p ++ num n ++ m)
  next-Lacks p m n h k =
      Lacks-append 37 (p ++ num n) m (Lacks-append 37 p (num n) h (d.plain n).2) k

  put_texts :
      (a b : Text)
      → QStringArg.texts arg (codes "%1/%2/%3x%4/%5/r%6") a b
        ≡ (a ++ codes "/" ++ b ++ codes "/") ++ codes "%3x%4/%5/r%6"
  put_texts a b =
      d.texts_put 1 2 [] (codes "/") (codes "/%3x%4/%5/r%6") a b
        (omega arith, omega arith, omega arith) refl (refl, refl) refl
      ∙ simp append_assoc

  texts-Lacks : (a b : Text) → Lacks 37 a → Lacks 37 b → Lacks 37 (a ++ codes "/" ++ b ++ codes "/")
  texts-Lacks a b h k =
      Lacks-append 37 (a ++ codes "/" ++ b) (codes "/")
        (Lacks-append 37 (a ++ codes "/") b (Lacks-append 37 a (codes "/") h refl) k) refl

  -- The key is the template with each part in its place.
  filled :
      (a b : Text) (w h p v : ℤ)
      → Lacks 37 a
      → Lacks 37 b
      → QStringArg.int arg
          (QStringArg.int arg
            (QStringArg.int arg
              (QStringArg.int arg (QStringArg.texts arg (codes "%1/%2/%3x%4/%5/r%6") a b) w)
              h)
            p)
          v
        ≡ a ++ 47 ∷ (b ++ 47 ∷ (num w ++ 120 ∷ (num h ++ 47 ∷ (num p ++ 47 ∷ 114 ∷ num v))))
  filled a b w h p v la lb =
      let int : Text → ℤ → Text = QStringArg.int arg in
      let k0 = a ++ codes "/" ++ b ++ codes "/" in
      let k1 = k0 ++ num w ++ codes "x" in
      let k2 = k1 ++ num h ++ codes "/" in
      let k3 = k2 ++ num p ++ codes "/r" in
      let l0 = texts-Lacks a b la lb in
      let l1 = next-Lacks k0 (codes "x") w l0 refl in
      let l2 = next-Lacks k1 (codes "/") h l1 refl in
      let l3 = next-Lacks k2 (codes "/r") p l2 refl in
      ap (λ (t : Text). int (int (int (int t w) h) p) v) (put_texts a b)
      ∙ ap (λ (t : Text). int (int (int t h) p) v)
          (put_next 3 k0 (codes "x") (codes "%4/%5/r%6") w (omega arith, omega arith) l0 refl)
      ∙ ap (λ (t : Text). int (int t p) v)
          (put_next 4 k1 (codes "/") (codes "%5/r%6") h (omega arith, omega arith) l1 refl)
      ∙ ap (λ (t : Text). int t v)
          (put_next 5 k2 (codes "/r") (codes "%6") p (omega arith, omega arith) l2 refl)
      ∙ d.int_put 6 k3 [] v (omega arith, omega arith) l3 refl
      ∙ simp (append_assoc, append-nil)

  key_parts :
      (r : MediaRequest)
      → IsPlain r.fingerprint
      → cache_key arg r
        ≡ fingerprint_key r.fingerprint
          ++ 47
            ∷ (kind_to_string r.kind
                ++ 47
                  ∷ (num r.target_size.width
                      ++ 120
                        ∷ (num r.target_size.height
                            ++ 47 ∷ (num r.position_ms ++ 47 ∷ 114 ∷ num r.recipe_revision))))
  unfolding cache_key
  key_parts r h =
      filled (fingerprint_key r.fingerprint) (kind_to_string r.kind) _ _ _ _
        (key-Lacks r.fingerprint h).1 (kind-Lacks r.kind).1

-- Two requests for content with valid fingerprints have the same cache key only if they agree in the
-- fingerprint, the kind, the size, the position and the revision of the recipe: in every field that
-- changes the bytes. The algorithm has no '-', and neither it nor the digest has a '/' or a '%'.
pub cache_key-injective :
    (arg : QStringArg) (num : ℤ → Text) (r q : MediaRequest)
    → IsArg arg num
    → IsPlain r.fingerprint
    → IsPlain q.fingerprint
    → cache_key arg r ≡ cache_key arg q
    → (r.fingerprint ≡ q.fingerprint)
      × (r.kind ≡ q.kind)
      × (r.target_size.width ≡ q.target_size.width)
      × (r.target_size.height ≡ q.target_size.height)
      × (r.position_ms ≡ q.position_ms)
      × (r.recipe_revision ≡ q.recipe_revision)
cache_key-injective arg num r q d f g e =
    let one =
      split_at 47 _ _ _ _ (key-Lacks r.fingerprint f).0 (key-Lacks q.fingerprint g).0
        (sym (key_parts arg num d r f) ∙ e ∙ key_parts arg num d q g) in
    let two = split_at 47 _ _ _ _ (kind-Lacks r.kind).0 (kind-Lacks q.kind).0 one.1 in
    let three =
      split_at 120 _ _ _ _ (d.plain r.target_size.width).1 (d.plain q.target_size.width).1 two.1 in
    let four =
      split_at 47 _ _ _ _ (d.plain r.target_size.height).0 (d.plain q.target_size.height).0
        three.1 in
    let five = split_at 47 _ _ _ _ (d.plain r.position_ms).0 (d.plain q.position_ms).0 four.1 in
    (
      fingerprint-injective r.fingerprint q.fingerprint f g one.0,
      kind-injective r.kind q.kind two.0,
      d.injective _ _ three.0,
      d.injective _ _ four.0,
      d.injective _ _ five.0,
      d.injective _ _ (tail-eq_of_cons-eq five.1),
    )
