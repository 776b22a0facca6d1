-- ===== src/Common/Rows.antt =====
-- What an UPDATE or a DELETE of one row of a table keeps.
use Prim.Native.Nat.{◌+◌}
use mathlib.Core.Path.{◌≡◌, refl, subst}
use mathlib.Core.Logic.{inl, inr}
use mathlib.Core.Bool.{Bool, true, false, ◌&&◌, ◌||◌}
use mathlib.Core.Option.{none, some}
use mathlib.Core.List.{List, [], ◌∷◌, ◌++◌, Memᴰ}
use native.Mathlib.Omega.{arith}
use krane_event_management_p.Common.Tests.{if◌then◌else◌, Bool-cases}
use krane_event_management_p.Common.Table.{
  length, any, find_row, update_row, remove_row, All, Pairwise, All-get, All-of, find_row-mem,
  find_row-none,
}

module _ {ℓ} {A : Type ℓ} where
  -- Where the new version passes the test too, it is what a later search finds.
  pub find_row-update_row :
      (p q : A → Bool) (f : A → A) (xs : List A) {x : A}
      → find_row p xs ≡ some x
      → ((y : A) → q y ≡ true → p y ≡ true)
      → q (f x) ≡ true
      → find_row q (update_row p f xs) ≡ some (f x)
  find_row-update_row p q f [] h k t = ground arith
  find_row-update_row p q f (y ∷ ys) {x} h k t = elim (Bool-cases (p y)) [
    | inl e ↦ ground arith
    | inr e ↦
        let ih = find_row-update_row p q f ys {x = x} (ground arith) k t in
        let miss : (q y ≡ true) → ⊥ = λ e'. ground (arith, k y e', e) in ground (arith, miss)
  ]

  pub length-append : (xs ys : List A) → length (xs ++ ys) ≡ length xs + length ys
  length-append [] ys = omega arith
  length-append (x ∷ xs) ys = omega (arith, length-append xs ys)

  pub any-append : (p : A → Bool) (xs ys : List A) → any p (xs ++ ys) ≡ any p xs || any p ys
  any-append p [] ys = refl
  any-append p (x ∷ xs) ys = ground (arith, any-append p xs ys)

  pub All-append {κ} : (P : A → Type κ) (xs ys : List A) → All P xs → All P ys → All P (xs ++ ys)
  All-append P [] ys h k = k
  All-append P (x ∷ xs) ys h k = (h.0, All-append P xs ys h.1 k)

  pub All_mono {κ ι} :
      (P : A → Type κ) (Q : A → Type ι) (xs : List A) → All P xs → ((x : A) → P x → Q x) → All Q xs
  All_mono P Q [] h k = tt
  All_mono P Q (x ∷ xs) h k = (k x h.0, All_mono P Q xs h.1 k)

  pub All-update_row {κ} :
      (P : A → Type κ) (p : A → Bool) (f : A → A) (xs : List A)
      → All P xs
      → ((x : A) → find_row p xs ≡ some x → P (f x))
      → All P (update_row p f xs)
  All-update_row P p f [] h k = tt
  All-update_row P p f (x ∷ xs) h k = elim (Bool-cases (p x)) [
    | inl e ↦ rw e (k x (rw e), h.1)
    | inr e ↦ rw e (h.0, All-update_row P p f xs h.1 (λ y q. k y (rw e q)))
  ]

  pub All-remove_row {κ} :
      (P : A → Type κ) (p : A → Bool) (xs : List A) → All P xs → All P (remove_row p xs)
  All-remove_row P p [] h = tt
  All-remove_row P p (x ∷ xs) h = elim (Bool-cases (p x)) [
    | inl e ↦ rw e h.1
    | inr e ↦ rw e (h.0, All-remove_row P p xs h.1)
  ]

  pub Pairwise-remove_row {κ} :
      (R : A → A → Type κ) (p : A → Bool) (xs : List A)
      → Pairwise R xs
      → Pairwise R (remove_row p xs)
  Pairwise-remove_row R p [] h = tt
  Pairwise-remove_row R p (x ∷ xs) h = elim (Bool-cases (p x)) [
    | inl e ↦ rw e h.1
    | inr e ↦ rw e (All-remove_row (R x) p xs h.0, Pairwise-remove_row R p xs h.1)
  ]

  -- The changed row has to be related anew to each row that the old one was related to.
  pub Pairwise-update_row {κ} :
      (R : A → A → Type κ) (p : A → Bool) (f : A → A) (xs : List A)
      → ((x y : A) → R x y → R y x)
      → Pairwise R xs
      → ((x y : A) → find_row p xs ≡ some x → Memᴰ y xs → R x y → R (f x) y)
      → Pairwise R (update_row p f xs)
  Pairwise-update_row R p f [] s h k = tt
  Pairwise-update_row R p f (x ∷ xs) s h k = elim (Bool-cases (p x)) [
    | inl e ↦
        rw e (All-of (R (f x)) xs (λ y m. k x y (rw e) (Memᴰ.tail m) (All-get (R x) xs h.0 m)), h.1)
    | inr e ↦ rw e (
      All-update_row (R x) p f xs h.0 (λ y q.
          s (f y) x
            (k y x (rw e q) (Memᴰ.head refl) (s x y (All-get (R x) xs h.0 (find_row-mem p xs q))))),
      Pairwise-update_row R p f xs s h.1 (λ y z q m. k y z (rw e q) (Memᴰ.tail m)),
    )
  ]

  -- A row that passes a test still does after a change that keeps the test of the changed row.
  pub any-update_row :
      (p q : A → Bool) (f : A → A) (xs : List A)
      → any q xs ≡ true
      → ((x : A) → p x ≡ true → q x ≡ true → q (f x) ≡ true)
      → any q (update_row p f xs) ≡ true
  any-update_row p q f [] h k = h
  any-update_row p q f (x ∷ xs) h k = ground (arith, k x, any-update_row p q f xs)

  pub any-remove_row :
      (p q : A → Bool) (xs : List A)
      → any q xs ≡ true
      → ((x : A) → p x ≡ true → q x ≡ true → ⊥)
      → any q (remove_row p xs) ≡ true
  any-remove_row p q [] h k = h
  any-remove_row p q (x ∷ xs) h k = ground (arith, k x, any-remove_row p q xs)

  pub any_mono :
      (p q : A → Bool) (xs : List A)
      → any p xs ≡ true
      → ((x : A) → p x ≡ true → q x ≡ true)
      → any q xs ≡ true
  any_mono p q [] h k = h
  any_mono p q (x ∷ xs) h k = ground (arith, k x, any_mono p q xs)

  pub any-none :
      (p q : A → Bool) (xs : List A)
      → any q xs ≡ false
      → ((x : A) → p x ≡ true → q x ≡ true)
      → any p xs ≡ false
  any-none p q [] h k = h
  any-none p q (x ∷ xs) h k = ground (arith, k x, any-none p q xs)

  none_further :
      (p r : A → Bool) {b : Bool} (xs : List A)
      → b ≡ true
      → All (λ y. b ≡ true → p y ≡ true → ⊥) xs
      → any (λ y. p y && r y) xs ≡ false
  none_further p r [] e h = refl
  none_further p r (x ∷ xs) e h = ground (arith, h.0 e, none_further p r xs e h.1)

  -- A further condition on a row that is unique selects that row or none.
  pub find_row-and :
      (p r : A → Bool) (xs : List A)
      → Pairwise (λ a b. p a ≡ true → p b ≡ true → ⊥) xs
      → find_row (λ x. p x && r x) xs
        ≡ elim (find_row p xs) [ none ↦ none | some x ↦ if r x then some x else none ]
  find_row-and p r [] h = refl
  find_row-and p r (x ∷ xs) h = elim (Bool-cases (p x)) [
    | inl e ↦
        let rest : find_row (λ y. p y && r y) xs ≡ none =
          find_row-none (λ y. p y && r y) xs (none_further p r xs e h.0) in
        ground (arith, rest)
    | inr e ↦ ground (arith, find_row-and p r xs h.1)
  ]

module _ {ℓ κ} {A : Type ℓ} (R : A → A → Type κ) (p q : A → Bool) {x : A}
    (rest : (y : A) → R x y → q y ≡ false) where
  any-none_related : (xs : List A) → All (R x) xs → any q xs ≡ false
  any-none_related [] h = refl
  any-none_related (y ∷ ys) h = ground (arith, rest y h.0, any-none_related ys h.1)

  -- No row but the removed one passes the second test.
  pub any-remove_row_related :
      (xs : List A)
      → ((a b : A) → R a b → R b a)
      → Pairwise R xs
      → find_row p xs ≡ some x
      → any q (remove_row p xs) ≡ false
  any-remove_row_related [] s h e = refl
  any-remove_row_related (y ∷ ys) s h e = elim (Bool-cases (p y)) [
    | inl hit ↦
        let same : y ≡ x = ground arith in
        rw hit (any-none_related ys (subst (λ z. All (R z) ys) same h.0))
    | inr miss ↦
        let there : find_row p ys ≡ some x = ground arith in
        let other = rest y (s y x (All-get (R y) ys h.0 (find_row-mem p ys there))) in
        rw (miss, other) (any-remove_row_related ys s h.1 there)
  ]

  -- The second test finds the changed row, as no other row passes it.
  pub find_row-update_row_related :
      (f : A → A) (xs : List A)
      → ((a b : A) → R a b → R b a)
      → Pairwise R xs
      → find_row p xs ≡ some x
      → q (f x) ≡ true
      → find_row q (update_row p f xs) ≡ some (f x)
  find_row-update_row_related f [] s h e t = ground arith
  find_row-update_row_related f (y ∷ ys) s h e t = elim (Bool-cases (p y)) [
    | inl hit ↦ ground arith
    | inr miss ↦
        let there : find_row p ys ≡ some x = ground arith in
        let other = rest y (s y x (All-get (R y) ys h.0 (find_row-mem p ys there))) in
        rw (miss, other) (find_row-update_row_related f ys s h.1 there t)
  ]

  -- Nothing passes the second test after the change, where the changed row does not.
  pub any-update_row_related :
      (f : A → A) (xs : List A)
      → ((a b : A) → R a b → R b a)
      → Pairwise R xs
      → find_row p xs ≡ some x
      → q (f x) ≡ false
      → any q (update_row p f xs) ≡ false
  any-update_row_related f [] s h e t = ground arith
  any-update_row_related f (y ∷ ys) s h e t = elim (Bool-cases (p y)) [
    | inl hit ↦
        let same : y ≡ x = ground arith in
        let others = any-none_related ys (subst (λ z. All (R z) ys) same h.0) in
        rw (hit, same, t) others
    | inr miss ↦
        let there : find_row p ys ≡ some x = ground arith in
        let other = rest y (s y x (All-get (R y) ys h.0 (find_row-mem p ys there))) in
        rw (miss, other) (any-update_row_related f ys s h.1 there t)
  ]
