-- ===== src/Pages/Order.antt =====
-- ORDER BY on rows with distinct ids: strictly ascending, and a WHERE clause may come before or after.
use mathlib.Core.List.{Permᴰ}
use mathlib.Core.List.Permᴰ.{refl as perm_refl}
use krane_event_management_p.Common.{
  length, ap, suc, ◌∙◌, ◌≡◌, ◌≢◌, refl, sym, Bool, true, false, List, [], ◌∷◌, arith, All, Pairwise,
  Bool-cases, inl, inr, if◌then◌else◌,
}
use krane_event_management_p.Domain.{Cursor}
use krane_event_management_p.Pages.{precedes, select, insert_row, order_by}

pub precedes_trans :
    (a b c : Cursor) → precedes a b ≡ true → precedes b c ≡ true → precedes a c ≡ true
precedes_trans a b c h k = ground arith

pub precedes_total : (a b : Cursor) → a.id ≢ b.id → precedes a b ≡ false → precedes b a ≡ true
precedes_total a b d h = ground arith

pub precedes_asym : (a b : Cursor) → precedes a b ≡ true → precedes b a ≡ false
precedes_asym a b h = ground arith

module _ {A : Type 0} (key : A → Cursor) where
  -- The rows come in strictly ascending order of their keys.
  abbrev pub Ascending : List A → Type 0
  Ascending xs = Pairwise (λ a b. precedes (key a) (key b) ≡ true) xs

  abbrev pub Unequal : List A → Type 0
  Unequal xs = Pairwise (λ a b. (key a).id ≢ (key b).id) xs

  All-insert_row {κ} :
      (P : A → Type κ) (x : A) (xs : List A) → P x → All P xs → All P (insert_row key x xs)
  All-insert_row P x [] p h = (p, tt)
  All-insert_row P x (y ∷ ys) p h = elim (Bool-cases (precedes (key y) (key x))) [
    | inl e ↦ rw e (h.0, All-insert_row P x ys p h.1)
    | inr e ↦ rw e (p, h)
  ]

  All-order_by {κ} : (P : A → Type κ) (xs : List A) → All P xs → All P (order_by key xs)
  All-order_by P [] h = tt
  All-order_by P (x ∷ xs) h = All-insert_row P x _ h.0 (All-order_by P xs h.1)

  All-precedes :
      (x y : A) (ys : List A)
      → precedes (key x) (key y) ≡ true
      → All (λ b. precedes (key y) (key b) ≡ true) ys
      → All (λ b. precedes (key x) (key b) ≡ true) ys
  All-precedes x y [] h k = tt
  All-precedes x y (z ∷ zs) h k =
      (precedes_trans (key x) (key y) (key z) h k.0, All-precedes x y zs h k.1)

  insert_row-Ascending :
      (x : A) (xs : List A)
      → All (λ b. (key x).id ≢ (key b).id) xs
      → Ascending xs
      → Ascending (insert_row key x xs)
  insert_row-Ascending x [] d h = (tt, tt)
  insert_row-Ascending x (y ∷ ys) d h = elim (Bool-cases (precedes (key y) (key x))) [
    | inl e ↦ rw e (
      All-insert_row (λ b. precedes (key y) (key b) ≡ true) x ys e h.0,
      insert_row-Ascending x ys d.1 h.1,
    )
    | inr e ↦
        let first = precedes_total (key y) (key x) (λ q. d.0 (sym q)) e in
        rw e ((first, All-precedes x y ys first h.0), h)
  ]

  pub order_by-Ascending : (xs : List A) → Unequal xs → Ascending (order_by key xs)
  order_by-Ascending [] d = tt
  order_by-Ascending (x ∷ xs) d =
      insert_row-Ascending x (order_by key xs) (All-order_by _ xs d.0) (order_by-Ascending xs d.1)

  All-select {κ} : (P : A → Type κ) (p : A → Bool) (xs : List A) → All P xs → All P (select p xs)
  All-select P p [] h = tt
  All-select P p (x ∷ xs) h = elim (Bool-cases (p x)) [
    | inl e ↦ rw e (h.0, All-select P p xs h.1)
    | inr e ↦ rw e (All-select P p xs h.1)
  ]

  pub select-Unequal : (p : A → Bool) (xs : List A) → Unequal xs → Unequal (select p xs)
  select-Unequal p [] h = tt
  select-Unequal p (x ∷ xs) h = elim (Bool-cases (p x)) [
    | inl e ↦ rw e (All-select _ p xs h.0, select-Unequal p xs h.1)
    | inr e ↦ rw e (select-Unequal p xs h.1)
  ]

  -- A row that precedes all others goes first.
  insert_first :
      (x : A) (xs : List A)
      → All (λ b. precedes (key x) (key b) ≡ true) xs
      → insert_row key x xs ≡ x ∷ xs
  insert_first x [] h = refl
  insert_first x (y ∷ ys) h = rw (precedes_asym (key x) (key y) h.0) refl

  select-insert_row :
      (p : A → Bool) (x : A) (xs : List A)
      → All (λ b. (key x).id ≢ (key b).id) xs
      → Ascending xs
      → select p (insert_row key x xs)
        ≡ (if p x then insert_row key x (select p xs) else select p xs)
  select-insert_row p x [] d h = refl
  select-insert_row p x (y ∷ ys) d h = elim (Bool-cases (precedes (key y) (key x))) [
    | inl e ↦ let ih = select-insert_row p x ys d.1 h.1 in ground (arith, ih, e)
    | inr e ↦
        let first = precedes_total (key y) (key x) (λ q. d.0 (sym q)) e in
        let all = All-select _ p (y ∷ ys) (first, All-precedes x y ys first h.0) in
        let put = insert_first x (select p (y ∷ ys)) all in rw (e, put) refl
  ]

  -- Filtering and sorting commute.
  pub select-order_by :
      (p : A → Bool) (xs : List A)
      → Unequal xs
      → order_by key (select p xs) ≡ select p (order_by key xs)
  select-order_by p [] d = refl
  select-order_by p (x ∷ xs) d =
      let ih = select-order_by p xs d.1 in
      let step =
        select-insert_row p x (order_by key xs) (All-order_by _ xs d.0)
          (order_by-Ascending xs d.1) in
      elim (Bool-cases (p x)) [
        | inl e ↦ rw (e, ih) (rw e at (sym step))
        | inr e ↦ rw (e, ih) (rw e at (sym step))
      ]

  -- Sorting loses and adds nothing.
  insert_row-Perm : (x : A) (xs : List A) → Permᴰ (insert_row key x xs) (x ∷ xs)
  insert_row-Perm x [] = Permᴰ.cons refl Permᴰ.nil
  insert_row-Perm x (y ∷ ys) = elim (Bool-cases (precedes (key y) (key x))) [
    | inl e ↦
        rw e (Permᴰ.trans (Permᴰ.cons refl (insert_row-Perm x ys)) (Permᴰ.swap {l = ys} refl refl))
    | inr e ↦ rw e (perm_refl (x ∷ y ∷ ys))
  ]

  pub order_by-Perm : (xs : List A) → Permᴰ (order_by key xs) xs
  order_by-Perm [] = Permᴰ.nil
  order_by-Perm (x ∷ xs) =
      Permᴰ.trans (insert_row-Perm x (order_by key xs)) (Permᴰ.cons refl (order_by-Perm xs))

  length-insert_row : (x : A) (xs : List A) → length (insert_row key x xs) ≡ suc (length xs)
  length-insert_row x [] = refl
  length-insert_row x (y ∷ ys) = ground (arith, length-insert_row x ys)

  pub length-order_by : (xs : List A) → length (order_by key xs) ≡ length xs
  length-order_by [] = refl
  length-order_by (x ∷ xs) = length-insert_row x (order_by key xs) ∙ ap suc (length-order_by xs)
