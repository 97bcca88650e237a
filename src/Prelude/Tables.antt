-- ===== src/Prelude/Tables.antt =====
-- Tables of rows, as the statements of SQL read and write them.
use Prim.Native.Nat.{ℕ, ◌+◌}
use mathlib.Core.Bool.{Bool, false, true}
use mathlib.Core.List.{List, [], ◌∷◌}
use mathlib.Core.Logic.{inl, inr, ◌⊎◌}
use mathlib.Core.Option.{Option, none, some}
use mathlib.Core.Path.{◌≡◌}
use native.Mathlib.Omega.{arith}
use mathlib.Core.Path.{refl, sym}
use mathlib.Core.Bool.{false≢true}
use mathlib.Core.List.{map}
use mathlib.Core.Logic.{◌≢◌}
use mathlib.Core.Path.{◌∙◌}
use Prim.Native.Nat.{◌<◌}
use mathlib.Core.List.{◌++◌}
use mathlib.Core.Path.{ap}
use meshcore_bbs.Prelude.Lists.{All, All-append, All-map, In, filter, head?}
use meshcore_bbs.Prelude.Tests.{Bool-cases, if◌then◌else◌}

module _ {ℓ} {A : Type ℓ} where
  -- `SELECT * WHERE p LIMIT 1`: the first row in the order of the table.
  abbrev pub find_row : (A → Bool) → List A → Option A
  find_row p [] = none
  find_row p (x ∷ xs) = let rest = find_row p xs in if p x then some x else rest

  -- `UPDATE SET f WHERE p`.
  abbrev pub update_rows : (A → Bool) → (A → A) → List A → List A
  update_rows p f [] = []
  update_rows p f (x ∷ xs) = (if p x then f x else x) ∷ update_rows p f xs

  -- `SELECT COUNT(*) WHERE p`.
  abbrev pub count_rows : (A → Bool) → List A → ℕ
  count_rows p [] = 0
  count_rows p (x ∷ xs) = (if p x then 1 else 0) + count_rows p xs

  -- `ORDER BY`, by insertion: `before x y` says that `x` may stand before `y`. Equal rows keep the
  -- order of the table.
  abbrev pub insert_by : (A → A → Bool) → A → List A → List A
  insert_by before x [] = x ∷ []
  insert_by before x (y ∷ ys) = if before x y then x ∷ y ∷ ys else y ∷ insert_by before x ys

  abbrev pub order_by : (A → A → Bool) → List A → List A
  order_by before [] = []
  order_by before (x ∷ xs) = insert_by before x (order_by before xs)

module _ {A : Type 0} (before : A → A → Bool) where
  In-insert_by : (m x : A) (ys : List A) → In m (insert_by before x ys) → (m ≡ x) ⊎ In m ys
  In-insert_by m x [] h = h
  In-insert_by m x (y ∷ ys) h = ground (arith, In-insert_by m x ys)

  pub In-order_by : (m : A) (xs : List A) → In m (order_by before xs) → In m xs
  In-order_by m [] h = h
  In-order_by m (x ∷ xs) h = ground (arith, In-insert_by m x (order_by before xs), In-order_by m xs)

module _ {A : Type 0} (before : A → A → Bool)
    (total : (a b : A) → before a b ≡ false → before b a ≡ true)
    (trans : (a b c : A) → before a b ≡ true → before b c ≡ true → before a c ≡ true) where
  -- The first of the ordered rows may stand before each row.
  IsFirst : Option A → List A → Type 0
  IsFirst none xs = xs ≡ []
  IsFirst (some m) xs = All (λ y. before m y ≡ true) xs

  IsFirst-insert_by :
      (x : A) (xs ys : List A)
      → IsFirst (head? ys) xs
      → IsFirst (head? (insert_by before x ys)) (x ∷ xs)
  unfolding IsFirst
  IsFirst-insert_by x xs [] e = (reflexive x, rw e tt)
    where
      reflexive : (a : A) → before a a ≡ true
      reflexive a = elim (Bool-cases (before a a)) [ inl e ↦ e | inr e ↦ total a a e ]
  IsFirst-insert_by x xs (y ∷ ys) h = elim (Bool-cases (before x y)) [
    | inl first ↦ rw first (
      reflexive,
      All-map (λ z. before y z ≡ true) (λ z. before x z ≡ true) xs (λ z k. trans x y z first k) h,
    )
    | inr later ↦ rw later (total x y later, h)
  ]
    where
      reflexive : before x x ≡ true
      reflexive = elim (Bool-cases (before x x)) [ inl e ↦ e | inr e ↦ total x x e ]

  order_by-IsFirst : (xs : List A) → IsFirst (head? (order_by before xs)) xs
  unfolding IsFirst
  order_by-IsFirst [] = refl
  order_by-IsFirst (x ∷ xs) = IsFirst-insert_by x xs (order_by before xs) (order_by-IsFirst xs)

  pub In-head_order_by : (m : A) (xs : List A) → head? (order_by before xs) ≡ some m → In m xs
  In-head_order_by m xs e = In-order_by before m xs (In-head (order_by before xs) e)
    where
      In-head : (ys : List A) → head? ys ≡ some m → In m ys
      In-head [] e = cc
      In-head (y ∷ ys) e = inl (cc)

  -- The first row of an ordered table may stand before each row of it.
  pub order_by-first :
      (m : A) (xs : List A) → head? (order_by before xs) ≡ some m → All (λ y. before m y ≡ true) xs
  unfolding IsFirst
  order_by-first m xs e = rw e at (order_by-IsFirst xs)

  -- Only an empty table has no first row.
  pub order_by-none : (xs : List A) → head? (order_by before xs) ≡ none → xs ≡ []
  unfolding IsFirst
  order_by-none xs e = rw e at (order_by-IsFirst xs)

module _ {A : Type 0} where
  pub All-filter :
      (p : A → Bool) (P : A → Type 0) (xs : List A)
      → All P (filter p xs)
      → All (λ x. p x ≡ true → P x) xs
  All-filter p P [] h = tt
  All-filter p P (x ∷ xs) h = elim (Bool-cases (p x)) [
    | inl e ↦
        let h' : P x × All P (filter p xs) = (rw e at h) in (λ _. h'.0, All-filter p P xs h'.1)
    | inr e ↦
        let h' : All P (filter p xs) = (rw e at h) in
        (λ t. absurd (false≢true (sym e ∙ t)), All-filter p P xs h')
  ]

  pub filter-nil : (p : A → Bool) (xs : List A) → filter p xs ≡ [] → All (λ x. p x ≡ false) xs
  filter-nil p [] e = tt
  filter-nil p (x ∷ xs) e = elim (Bool-cases (p x)) [
    | inl t ↦ absurd (cons_ne_nil x (filter p xs) (rw t at e))
    | inr f ↦ (f, filter-nil p xs (rw f at e))
  ]
    where
      cons_ne_nil : (x : A) (xs : List A) → x ∷ xs ≢ []
      cons_ne_nil x xs e = cc

  -- An UPDATE keeps what it does not set.
  pub map-update_rows :
      {B : Type 0} (g : A → B) (p : A → Bool) (f : A → A) (xs : List A)
      → ((x : A) → g (f x) ≡ g x)
      → map g (update_rows p f xs) ≡ map g xs
  map-update_rows g p f [] same = refl
  map-update_rows g p f (x ∷ xs) same = ground (arith, same x, map-update_rows g p f xs same)

-- No number stands in the list twice.
abbrev pub Distinct : List ℕ → Type 0
Distinct [] = Unit
Distinct (x ∷ xs) = All (λ y. y ≢ x) xs × Distinct xs

pub Distinct-snoc :
    (xs : List ℕ) (x : ℕ) → Distinct xs → All (λ y. y < x) xs → Distinct (xs ++ x ∷ [])
Distinct-snoc [] x d h = (tt, tt)
Distinct-snoc (y ∷ ys) x d h =
    (All-append (λ z. z ≢ y) ys (x ∷ []) d.0 (omega (arith, h.0), tt), Distinct-snoc ys x d.1 h.1)

module _ {A : Type 0} (key : A → ℕ) where
  pub Distinct-same :
      (m : A) (xs : List A) → Distinct (map key xs) → In m xs → All (λ y. key y ≡ key m → y ≡ m) xs
  Distinct-same m [] d h = tt
  Distinct-same m (x ∷ xs) d (inl e) = (λ _. sym e, others xs d.0)
    where
      others :
          (ys : List A) → All (λ k. k ≢ key x) (map key ys) → All (λ y. key y ≡ key m → y ≡ m) ys
      others [] h = tt
      others (y ∷ ys) h = (λ k. absurd (h.0 (k ∙ ap key e)), others ys h.1)
  Distinct-same m (x ∷ xs) d (inr h) = (λ k. absurd (differs xs d.0 h k), Distinct-same m xs d.1 h)
    where
      differs : (ys : List A) → All (λ k. k ≢ key x) (map key ys) → In m ys → key x ≡ key m → ⊥
      differs [] h k e = absurd k
      differs (y ∷ ys) h (inl s) e = h.0 (ap key (sym s) ∙ sym e)
      differs (y ∷ ys) h (inr k) e = differs ys h.1 k e

module _ {A : Type 0} where
  pub find_row-some :
      (p : A → Bool) (m : A) (xs : List A) → find_row p xs ≡ some m → In m xs × (p m ≡ true)
  find_row-some p m [] e = absurd (cc)
  find_row-some p m (x ∷ xs) e = ground (arith, find_row-some p m xs)

  pub find_row-none :
      (p : A → Bool) (xs : List A) → find_row p xs ≡ none → All (λ x. p x ≡ false) xs
  find_row-none p [] e = tt
  find_row-none p (x ∷ xs) e = ground (arith, find_row-none p xs)

  pub All-update_rows :
      (p : A → Bool) (f : A → A) (P Q : A → Type 0) (xs : List A)
      → ((x : A) → P x → Q (if p x then f x else x))
      → All P xs
      → All Q (update_rows p f xs)
  All-update_rows p f P Q [] step h = tt
  All-update_rows p f P Q (x ∷ xs) step h = (step x h.0, All-update_rows p f P Q xs step h.1)

  pub All-both : (P Q : A → Type 0) (xs : List A) → All P xs → All Q xs → All (λ x. P x × Q x) xs
  All-both P Q [] h k = tt
  All-both P Q (x ∷ xs) h k = ((h.0, k.0), All-both P Q xs h.1 k.1)

pub All-of_map :
    {A : Type 0} (key : A → ℕ) (P : ℕ → Type 0) (xs : List A)
    → All P (map key xs)
    → All (λ x. P (key x)) xs
All-of_map key P [] h = tt
All-of_map key P (x ∷ xs) h = (h.0, All-of_map key P xs h.1)

module _ {A : Type 0} where
  pub filter-update_rows :
      (p q : A → Bool) (f : A → A) (xs : List A)
      → ((x : A) → p (f x) ≡ p x)
      → All (λ x. p x ≡ true → q x ≡ false) xs
      → filter p (update_rows q f xs) ≡ filter p xs
  filter-update_rows p q f [] same h = refl
  filter-update_rows p q f (x ∷ xs) same h =
      ground (arith, same x, h.0, filter-update_rows p q f xs same h.1)

pub count_rows-snoc :
    {A : Type 0} (p : A → Bool) (xs : List A) (x : A)
    → count_rows p (xs ++ x ∷ []) ≡ count_rows p xs + (if p x then 1 else 0)
count_rows-snoc p [] x = ground arith
count_rows-snoc p (y ∷ ys) x = ground (arith, count_rows-snoc p ys x)
