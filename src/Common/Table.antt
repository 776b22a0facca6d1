-- ===== src/Common/Table.antt =====
-- Tables as lists of rows, the newest first. A WHERE clause is a Boolean test of a row; an UPDATE or
-- a DELETE by primary key changes the one row that passes the test.
use Prim.Native.Nat.{ℕ, suc}
use mathlib.Core.Path.{◌≡◌, refl, sym, subst}
use mathlib.Core.Logic.{inl, inr}
use mathlib.Core.Bool.{Bool, true, false, ◌||◌}
use mathlib.Core.Option.{Option, none, some}
use mathlib.Core.List.{List, [], ◌∷◌, Memᴰ}
use native.Mathlib.Omega.{arith}
use krane_event_management_p.Common.Tests.{if◌then◌else◌, Bool-cases}

module _ {ℓ} {A : Type ℓ} where
  abbrev pub length : List A → ℕ
  length [] = 0
  length (x ∷ xs) = suc (length xs)

  abbrev pub any : (A → Bool) → List A → Bool
  any p [] = false
  any p (x ∷ xs) = p x || any p xs

  abbrev pub find_row : (A → Bool) → List A → Option A
  find_row p [] = none
  find_row p (x ∷ xs) = if p x then some x else find_row p xs

  abbrev pub update_row : (A → Bool) → (A → A) → List A → List A
  update_row p f [] = []
  update_row p f (x ∷ xs) = if p x then f x ∷ xs else x ∷ update_row p f xs

  abbrev pub remove_row : (A → Bool) → List A → List A
  remove_row p [] = []
  remove_row p (x ∷ xs) = if p x then xs else x ∷ remove_row p xs

  abbrev pub All {κ} : (A → Type κ) → List A → Type κ
  All P [] = Unit
  All P (x ∷ xs) = P x × All P xs

  -- The relation holds of every row and each older one.
  abbrev pub Pairwise {κ} : (A → A → Type κ) → List A → Type κ
  Pairwise R [] = Unit
  Pairwise R (x ∷ xs) = All (R x) xs × Pairwise R xs

module _ {ℓ} {A : Type ℓ} where
  pub All-get {κ} : (P : A → Type κ) (xs : List A) {x : A} → All P xs → Memᴰ x xs → P x
  All-get P [] h m = elim m [ ]
  All-get P (y ∷ ys) h (Memᴰ.head e) = subst P (sym e) h.0
  All-get P (y ∷ ys) h (Memᴰ.tail m) = All-get P ys h.1 m

  pub All-of {κ} : (P : A → Type κ) (xs : List A) → ((x : A) → Memᴰ x xs → P x) → All P xs
  All-of P [] h = tt
  All-of P (x ∷ xs) h = (h x (Memᴰ.head refl), All-of P xs (λ y m. h y (Memᴰ.tail m)))

  pub any-false : (p : A → Bool) (xs : List A) {x : A} → any p xs ≡ false → Memᴰ x xs → p x ≡ false
  any-false p [] h m = elim m [ ]
  any-false p (y ∷ ys) h (Memᴰ.head e) = subst (λ z. p z ≡ false) (sym e) (ground arith)
  any-false p (y ∷ ys) h (Memᴰ.tail m) = any-false p ys (ground arith) m

  pub any-true : (p : A → Bool) (xs : List A) → any p xs ≡ true → (x : A) × Memᴰ x xs × (p x ≡ true)
  any-true p [] h = ground arith
  any-true p (x ∷ xs) h = elim (Bool-cases (p x)) [
    | inl e ↦ (x, Memᴰ.head refl, e)
    | inr e ↦ let (y, m, q) = any-true p xs (ground arith) in (y, Memᴰ.tail m, q)
  ]

  pub any-mem : (p : A → Bool) (xs : List A) {x : A} → Memᴰ x xs → p x ≡ true → any p xs ≡ true
  any-mem p [] m h = elim m [ ]
  any-mem p (y ∷ ys) (Memᴰ.head e) h = let k = subst (λ z. p z ≡ true) e h in ground arith
  any-mem p (y ∷ ys) (Memᴰ.tail m) h = let k = any-mem p ys m h in ground arith

  pub find_row-mem : (p : A → Bool) (xs : List A) {x : A} → find_row p xs ≡ some x → Memᴰ x xs
  find_row-mem p [] h = ground arith
  find_row-mem p (y ∷ ys) h = elim (Bool-cases (p y)) [
    | inl e ↦ Memᴰ.head (ground arith)
    | inr e ↦ Memᴰ.tail (find_row-mem p ys (ground arith))
  ]

  pub find_row-test : (p : A → Bool) (xs : List A) {x : A} → find_row p xs ≡ some x → p x ≡ true
  find_row-test p [] h = ground arith
  find_row-test p (y ∷ ys) h = elim (Bool-cases (p y)) [
    | inl e ↦ ground arith
    | inr e ↦ find_row-test p ys (ground arith)
  ]

  pub any-of_find_row :
      (p : A → Bool) (xs : List A) {x : A} → find_row p xs ≡ some x → any p xs ≡ true
  any-of_find_row p xs h = any-mem p xs (find_row-mem p xs h) (find_row-test p xs h)

  pub find_row-none : (p : A → Bool) (xs : List A) → any p xs ≡ false → find_row p xs ≡ none
  find_row-none p [] h = refl
  find_row-none p (x ∷ xs) h = ground (arith, find_row-none p xs)

  pub any-find_row : (p : A → Bool) (xs : List A) → find_row p xs ≡ none → any p xs ≡ false
  any-find_row p [] h = refl
  any-find_row p (x ∷ xs) h = ground (arith, any-find_row p xs)

  pub update_row-none :
      (p : A → Bool) (f : A → A) (xs : List A) → find_row p xs ≡ none → update_row p f xs ≡ xs
  update_row-none p f [] h = refl
  update_row-none p f (x ∷ xs) h = ground (arith, update_row-none p f xs)
