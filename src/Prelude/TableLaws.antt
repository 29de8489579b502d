-- ===== src/Prelude/TableLaws.antt =====
-- Laws of the table operations: tests, lookups and selections.
use mathlib.Core.Path.{◌≡◌, refl, ap}
use Prim.Native.Nat.{◌+◌, ◌≤◌}
use mathlib.Core.Logic.{inl, inr}
use mathlib.Core.Bool.{Bool, true, false, ◌||◌, not}
use mathlib.Core.Option.{none, some}
use mathlib.Core.List.{List, [], ◌∷◌, ◌++◌}
use native.Mathlib.Omega.{arith}
use specification_enhancemen.Prelude.Tests.{if◌then◌else◌, Bool-cases}
use specification_enhancemen.Prelude.Table.{length, select, find, any, modify, insert_by, order_by}

module _ {ℓ} {A : Type ℓ} where
  pub any-append : (p : A → Bool) (xs ys : List A) → any p (xs ++ ys) ≡ (any p xs || any p ys)
  any-append p [] ys = refl
  any-append p (x ∷ xs) ys = ground (arith, any-append p xs ys)

  -- A test that the update of the chosen rows does not change
  pub any-modify :
      (q p : A → Bool) (f : A → A)
      → ((x : A) → q (f x) ≡ q x)
      → (xs : List A) → any q (modify p f xs) ≡ any q xs
  any-modify q p f same [] = refl
  any-modify q p f same (x ∷ xs) = ground (arith, same x, any-modify q p f same xs)

  -- A test that no updated row passes, and that only rows which are updated passed
  pub any-modify_none :
      (q p : A → Bool) (f : A → A)
      → ((x : A) → q (f x) ≡ false)
      → ((x : A) → p x ≡ false → q x ≡ false)
      → (xs : List A) → any q (modify p f xs) ≡ false
  any-modify_none q p f gone only [] = refl
  any-modify_none q p f gone only (x ∷ xs) = elim (Bool-cases (p x)) [
    | inl e ↦ rw (e, gone x) (any-modify_none q p f gone only xs)
    | inr e ↦ rw (e, only x e) (any-modify_none q p f gone only xs)
  ]

  pub any-insert_by :
      (p : A → Bool) (before : A → A → Bool) (x : A) (xs : List A)
      → any p (insert_by before x xs) ≡ (p x || any p xs)
  any-insert_by p before x [] = refl
  any-insert_by p before x (y ∷ ys) = ground (arith, any-insert_by p before x ys)

  pub any-order_by :
      (p : A → Bool) (before : A → A → Bool) (xs : List A) → any p (order_by before xs) ≡ any p xs
  any-order_by p before [] = refl
  any-order_by p before (x ∷ xs) =
      ground (arith, any-insert_by p before x (order_by before xs), any-order_by p before xs)

  pub find-none : (p : A → Bool) (xs : List A) → find p xs ≡ none → any p xs ≡ false
  find-none p [] h = refl
  find-none p (x ∷ xs) h = elim (Bool-cases (p x)) [
    | inl e ↦ ground (arith)
    | inr e ↦ rw e (find-none p xs (rw e at h))
  ]

  pub find-some : (p : A → Bool) (xs : List A) (a : A) → find p xs ≡ some a → p a ≡ true
  find-some p [] a h = ground arith
  find-some p (x ∷ xs) a h = ground (arith, find-some p xs a)

  pub any-find : (p : A → Bool) (xs : List A) (a : A) → find p xs ≡ some a → any p xs ≡ true
  any-find p [] a h = ground arith
  any-find p (x ∷ xs) a h = ground (arith, any-find p xs a)

  -- A row that was found passes any test that it passes by itself.
  pub any-found :
      (p q : A → Bool) (xs : List A) (a : A) → find p xs ≡ some a → q a ≡ true → any q xs ≡ true
  any-found p q [] a h t = ground arith
  any-found p q (x ∷ xs) a h t = elim (Bool-cases (p x)) [
    | inl e ↦ let same : x ≡ a = ground arith in let hit : q x ≡ true = rw same t in rw hit refl
    | inr e ↦ ground (arith, any-found p q xs a)
  ]

  pub find-any : (p : A → Bool) (xs : List A) → any p xs ≡ false → find p xs ≡ none
  find-any p [] h = refl
  find-any p (x ∷ xs) h = ground (arith, find-any p xs)

  pub find-append :
      (p : A → Bool) (xs ys : List A) → any p xs ≡ false → find p (xs ++ ys) ≡ find p ys
  find-append p [] ys h = refl
  find-append p (x ∷ xs) ys h = ground (arith, find-append p xs ys)

  pub select-none : (p : A → Bool) (xs : List A) → any p xs ≡ false → select p xs ≡ []
  select-none p [] h = refl
  select-none p (x ∷ xs) h = ground (arith, select-none p xs)

  pub modify-none : (p : A → Bool) (f : A → A) (xs : List A) → any p xs ≡ false → modify p f xs ≡ xs
  modify-none p f [] h = refl
  modify-none p f (x ∷ xs) h = ground (arith, modify-none p f xs)

  -- The row that a test finds, after an update that the test does not see
  pub find-modify :
      (q p : A → Bool) (f : A → A)
      → ((x : A) → q (f x) ≡ q x)
      → (xs : List A) (a : A) → find q xs ≡ some a
      → find q (modify p f xs) ≡ some (if p a then f a else a)
  find-modify q p f same [] a h = absurd (ground arith)
  find-modify q p f same (x ∷ xs) a h = elim (Bool-cases (q x)) [
    | inl e ↦ let this : x ≡ a = ground arith in rw (← this) (ground (arith, same x))
    | inr e ↦ ground (arith, same x, find-modify q p f same xs a)
  ]

  pub find-append_some :
      (q : A → Bool) (xs ys : List A) (a : A) → find q xs ≡ some a → find q (xs ++ ys) ≡ some a
  find-append_some q [] ys a h = absurd (ground arith)
  find-append_some q (x ∷ xs) ys a h = ground (arith, find-append_some q xs ys a)

  pub length-select_append :
      (q : A → Bool) (xs : List A) (a : A)
      → length (select q (xs ++ a ∷ [])) ≡ length (select q xs) + (if q a then 1 else 0)
  length-select_append q [] a = ground arith
  length-select_append q (x ∷ xs) a = ground (arith, length-select_append q xs a)

  pub length-select-select :
      (q p : A → Bool) (xs : List A) → length (select q (select p xs)) ≤ length (select q xs)
  length-select-select q p [] = omega arith
  length-select-select q p (x ∷ xs) = ground (arith, length-select-select q p xs)

  pub select-select_of :
      (q p : A → Bool)
      → ((x : A) → q x ≡ true → p x ≡ true)
      → (xs : List A) → select q (select p xs) ≡ select q xs
  select-select_of q p sub [] = refl
  select-select_of q p sub (x ∷ xs) = elim (Bool-cases (q x)) [
    | inl e ↦ rw (sub x e, e) (ap (λ r. x ∷ r) (select-select_of q p sub xs))
    | inr e ↦ elim (Bool-cases (p x)) [
      | inl f ↦ rw (f, e) (select-select_of q p sub xs)
      | inr f ↦ rw (f, e) (select-select_of q p sub xs)
    ]
  ]

  -- A split by a test loses nothing.
  pub length-select-not :
      (p : A → Bool) (xs : List A)
      → length (select (λ x. not (p x)) xs) + length (select p xs) ≡ length xs
  length-select-not p [] = refl
  length-select-not p (x ∷ xs) = ground (arith, length-select-not p xs)

  pub select-append :
      (q : A → Bool) (xs ys : List A) → select q (xs ++ ys) ≡ select q xs ++ select q ys
  select-append q [] ys = refl
  select-append q (x ∷ xs) ys = ground (arith, select-append q xs ys)
