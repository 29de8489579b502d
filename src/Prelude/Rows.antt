-- ===== src/Prelude/Rows.antt =====
-- Laws of the table operations: what every row says of itself, and rows that do not clash.
use mathlib.Core.Path.{◌≡◌, refl, subst, ◌∙◌}
use mathlib.Core.Logic.{inl, inr}
use mathlib.Core.Bool.{Bool, true, false}
use mathlib.Core.Option.{some}
use mathlib.Core.List.{List, [], ◌∷◌, ◌++◌}
use native.Mathlib.Omega.{arith}
use specification_enhancemen.Prelude.Tests.{if◌then◌else◌, Bool-cases}
use specification_enhancemen.Prelude.Table.{select, find, any, modify, insert_by, order_by, All}
use specification_enhancemen.Prelude.TableLaws.{any-append}

module _ {ℓ} {A : Type ℓ} where
  pub All-append {κ} : (P : A → Type κ) (xs ys : List A) → All P xs → All P ys → All P (xs ++ ys)
  All-append P [] ys hx hy = hy
  All-append P (x ∷ xs) ys hx hy = (hx.0, All-append P xs ys hx.1 hy)

  pub All-modify {κ} :
      (P : A → Type κ) (p : A → Bool) (f : A → A)
      → ((x : A) → P x → P (f x))
      → (xs : List A) → All P xs
      → All P (modify p f xs)
  All-modify P p f keep [] h = tt
  All-modify P p f keep (x ∷ xs) h = elim (Bool-cases (p x)) [
    | inl e ↦ rw e (keep x h.0, All-modify P p f keep xs h.1)
    | inr e ↦ rw e (h.0, All-modify P p f keep xs h.1)
  ]

  -- What the updated rows and the others say afterwards
  pub All-modify_cases {κ μ} :
      (P : A → Type κ) (Q : A → Type μ) (p : A → Bool) (f : A → A)
      → ((x : A) → p x ≡ true → P x → Q (f x))
      → ((x : A) → p x ≡ false → P x → Q x)
      → (xs : List A) → All P xs
      → All Q (modify p f xs)
  All-modify_cases P Q p f hit miss [] h = tt
  All-modify_cases P Q p f hit miss (x ∷ xs) h = elim (Bool-cases (p x)) [
    | inl e ↦ rw e (hit x e h.0, All-modify_cases P Q p f hit miss xs h.1)
    | inr e ↦ rw e (miss x e h.0, All-modify_cases P Q p f hit miss xs h.1)
  ]

  pub All-map {κ μ} :
      (P : A → Type κ) (Q : A → Type μ)
      → ((x : A) → P x → Q x)
      → (xs : List A) → All P xs
      → All Q xs
  All-map P Q f [] h = tt
  All-map P Q f (x ∷ xs) h = (f x h.0, All-map P Q f xs h.1)

  -- Every selected row is found again in the selection, by a test that a row passes against itself.
  pub select-covers :
      (q : A → Bool) (t : A → A → Bool)
      → ((x : A) → t x x ≡ true)
      → (xs : List A) → All (λ r. q r ≡ true → any (t r) (select q xs) ≡ true) xs
  select-covers q t self [] = tt
  select-covers q t self (x ∷ xs) = (
    λ e. rw e (ground (arith, self x)),
    All-map _ _ (λ r h e. ground (arith, h e)) xs (select-covers q t self xs),
  )

  pub All-select_own : (q : A → Bool) (xs : List A) → All (λ x. q x ≡ true) (select q xs)
  All-select_own q [] = tt
  All-select_own q (x ∷ xs) = elim (Bool-cases (q x)) [
    | inl e ↦ rw e (e, All-select_own q xs)
    | inr e ↦ rw e (All-select_own q xs)
  ]

  pub All-select {κ} :
      (P : A → Type κ) (q : A → Bool) (xs : List A)
      → All (λ x. q x ≡ true → P x) xs
      → All P (select q xs)
  All-select P q [] h = tt
  All-select P q (x ∷ xs) h = elim (Bool-cases (q x)) [
    | inl e ↦ rw e (h.0 e, All-select P q xs h.1)
    | inr e ↦ rw e (All-select P q xs h.1)
  ]

  All-insert_by {κ} :
      (P : A → Type κ) (before : A → A → Bool) (x : A) (xs : List A)
      → P x
      → All P xs
      → All P (insert_by before x xs)
  All-insert_by P before x [] p h = (p, tt)
  All-insert_by P before x (y ∷ ys) p h = elim (Bool-cases (before x y)) [
    | inl e ↦ rw e (p, h)
    | inr e ↦ rw e (h.0, All-insert_by P before x ys p h.1)
  ]

  pub All-order_by {κ} :
      (P : A → Type κ) (before : A → A → Bool) (xs : List A) → All P xs → All P (order_by before xs)
  All-order_by P before [] h = tt
  All-order_by P before (x ∷ xs) h =
      All-insert_by P before x (order_by before xs) h.0 (All-order_by P before xs h.1)

  pub All-find {κ} :
      (P : A → Type κ) (p : A → Bool) (xs : List A) (a : A) → All P xs → find p xs ≡ some a → P a
  All-find P p [] a h e = absurd (ground arith)
  All-find P p (x ∷ xs) a h e = elim (Bool-cases (p x)) [
    | inl t ↦ subst P (ground arith) h.0
    | inr f ↦ All-find P p xs a h.1 (ground arith)
  ]

  -- What every row says of itself, said of the test: no row passes it.
  pub any-All_none : (p : A → Bool) (xs : List A) → All (λ x. p x ≡ false) xs → any p xs ≡ false
  any-All_none p [] h = refl
  any-All_none p (x ∷ xs) h = rw (h.0) (any-All_none p xs h.1)

  pub All-any_none : (p : A → Bool) (xs : List A) → any p xs ≡ false → All (λ x. p x ≡ false) xs
  All-any_none p [] h = tt
  All-any_none p (x ∷ xs) h = (ground arith, All-any_none p xs (ground arith))

  -- No later row clashes with an earlier one: what a UNIQUE constraint promises.
  abbrev pub Apart : (A → A → Bool) → List A → Type 0
  Apart r [] = Unit {0}
  Apart r (x ∷ xs) = (any (r x) xs ≡ false) × Apart r xs

  pub Apart-append_one :
      (r : A → A → Bool) (xs : List A) (a : A)
      → Apart r xs
      → any (λ x. r x a) xs ≡ false
      → Apart r (xs ++ a ∷ [])
  Apart-append_one r [] a h new = (refl, tt)
  Apart-append_one r (x ∷ xs) a h new = (
    any-append (r x) xs (a ∷ []) ∙ ground (arith, h.0),
    Apart-append_one r xs a h.1 (ground arith),
  )

  -- An update that makes no new clash
  pub Apart-modify :
      (r : A → A → Bool) (p : A → Bool) (f : A → A)
      → ((x y : A) → r x y ≡ false → r (if p x then f x else x) (if p y then f y else y) ≡ false)
      → (xs : List A) → Apart r xs
      → Apart r (modify p f xs)
  Apart-modify r p f keep [] h = tt
  Apart-modify r p f keep (x ∷ xs) h = (none_clash xs h.0, Apart-modify r p f keep xs h.1)
    where
      none_clash :
          (ys : List A)
          → any (r x) ys ≡ false
          → any (r (if p x then f x else x)) (modify p f ys) ≡ false
      none_clash [] e = refl
      none_clash (y ∷ ys) e = ground (arith, keep x y, none_clash ys)
