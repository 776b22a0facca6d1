-- ===== src/Pages/Walk.antt =====
-- A client that follows next_cursor from page to page sees each row once, in order.
use mathlib.Core.List.{Memᴰ, Permᴰ}
use krane_event_management_p.Common.{
  ℕ, zero, suc, ◌≡◌, ◌≤◌, ◌<◌, refl, ap, sym, subst, ◌∙◌, Bool, true, false, ltb, Option, none,
  some, List, [], ◌∷◌, ◌++◌, length, arith, All, All-get, All-of, Bool-cases, inl, inr,
}
use krane_event_management_p.Domain.{Cursor}
use krane_event_management_p.Pages.{
  precedes, starts_after, select, take, get_elem?, order_by, Page, cut, page_of,
}
use krane_event_management_p.Pages.Order.{
  Ascending, Unequal, order_by-Ascending, order_by-Perm, length-order_by, select-order_by,
  select-Unequal, precedes_trans, precedes_asym,
}

module _ {A : Type 0} where
  take_all : (n : ℕ) (xs : List A) → length xs ≤ n → take n xs ≡ xs
  take_all zero [] h = refl
  take_all zero (x ∷ xs) h = absurd (omega arith)
  take_all (suc n) [] h = refl
  take_all (suc n) (x ∷ xs) h = ap (λ ys. x ∷ ys) (take_all n xs (omega arith))

  length-take : (n : ℕ) (xs : List A) → n ≤ length xs → length (take n xs) ≡ n
  length-take zero xs h = refl
  length-take (suc n) [] h = absurd (omega arith)
  length-take (suc n) (x ∷ xs) h = ap suc (length-take n xs (omega arith))

  select-All : (p : A → Bool) (xs : List A) → All (λ x. p x ≡ true) xs → select p xs ≡ xs
  select-All p [] h = refl
  select-All p (x ∷ xs) h = ground (arith, h.0, select-All p xs h.1)

  select-select :
      (q p : A → Bool) (xs : List A)
      → ((x : A) → q x ≡ true → p x ≡ true)
      → select q (select p xs) ≡ select q xs
  select-select q p [] h = refl
  select-select q p (x ∷ xs) h = ground (arith, h x, select-select q p xs h)

module _ {A : Type 0} (key : A → Cursor) where
  -- A page, and what the next request gives where there is a cursor.
  abbrev pub follow : (Cursor → List A) → Option (Page A) → List A
  follow next none = []
  follow next (some page) = elim page.next_cursor [
    | none ↦ page.items
    | some c ↦ page.items ++ next c
  ]

  -- The pages from a cursor on, one after the other.
  abbrev pub walk : ℕ → ℕ → Option Cursor → List A → List A
  walk zero limit after rows = []
  walk (suc n) limit after rows =
      follow (λ c. walk n limit (some c) rows) (page_of key limit after rows)

  -- The last row of a page, and what follows it in the ordered rows.
  record Split (m : ℕ) (xs : List A) : Type 0 where
    last : A
    rest : List A
    listed : Memᴰ last xs
    at : get_elem? (take (suc (suc m)) xs) m ≡ some last
    whole : take (suc m) (take (suc (suc m)) xs) ++ rest ≡ xs
    after : select (λ r. precedes (key last) (key r)) xs ≡ rest
    shorter : length rest < length xs

  Ascending-Split : (m : ℕ) (xs : List A) → Ascending key xs → m < length xs → Split m xs
  Ascending-Split m [] h p = absurd (omega arith)
  Ascending-Split zero (x ∷ xs) h p =
      let self : precedes (key x) (key x) ≡ false = ground arith in
      record {
        last = x;
        rest = xs;
        listed = Memᴰ.head refl;
        at = refl;
        whole = refl;
        after = rw self (select-All (λ r. precedes (key x) (key r)) xs h.0);
        shorter = omega arith;
      }
  Ascending-Split (suc m) (x ∷ xs) h p =
      let s = Ascending-Split m xs h.1 (omega arith) in
      let back =
        precedes_asym (key x) (key s.last)
          (All-get (λ b. precedes (key x) (key b) ≡ true) xs h.0 s.listed) in
      record {
        last = s.last;
        rest = s.rest;
        listed = Memᴰ.tail s.listed;
        at = s.at;
        whole = ap (λ ys. x ∷ ys) s.whole;
        after = rw back s.after;
        shorter = omega (arith, s.shorter);
      }

  starts_after_trans :
      (after : Option Cursor) (a b : Cursor)
      → starts_after after a ≡ true
      → precedes a b ≡ true
      → starts_after after b ≡ true
  starts_after_trans none a b h k = refl
  starts_after_trans (some c) a b h k = precedes_trans c a b h k

  All-selected : (p : A → Bool) (xs : List A) → All (λ x. p x ≡ true) (select p xs)
  All-selected p [] = tt
  All-selected p (x ∷ xs) = elim (Bool-cases (p x)) [
    | inl e ↦ rw e (e, All-selected p xs)
    | inr e ↦ rw e (All-selected p xs)
  ]

  -- What the next query selects is what follows the page.
  next_rows :
      (rows : List A) (after : Option Cursor) (m : ℕ)
      → Unequal key rows
      → (s : Split m (order_by key (select (λ r. starts_after after (key r)) rows)))
      → order_by key (select (λ r. starts_after (some (key s.last)) (key r)) rows) ≡ s.rest
  next_rows rows after m d s =
      let p = λ (r : A). starts_after after (key r) in
      let q = λ (r : A). precedes (key s.last) (key r) in
      let sorted = order_by key rows in
      let same = select-order_by key p rows d in
      let here : p s.last ≡ true =
        All-get (λ x. p x ≡ true) _ (All-selected p sorted)
          (subst (λ ys. Memᴰ s.last ys) same s.listed) in
      select-order_by key q rows d
      ∙ sym (select-select q p sorted (λ x k. starts_after_trans after (key s.last) (key x) here k))
      ∙ ap (λ ys. select q ys) (sym same)
      ∙ s.after

  page_last :
      (m : ℕ) (after : Option Cursor) (rows : List A)
      → let whole = order_by key (select (λ r. starts_after after (key r)) rows) in
        length whole ≤ suc m
        → page_of key (suc m) after rows ≡ some (record { items = whole; next_cursor = none })
  page_last m after rows h =
      let whole = order_by key (select (λ r. starts_after after (key r)) rows) in
      let all = take_all (suc (suc m)) whole (omega arith) in
      let short : ltb (suc m) (length whole) ≡ false = ground arith in rw (all, short) refl

  cut-some :
      (m : ℕ) (xs : List A) {x : A}
      → get_elem? xs m ≡ some x
      → cut key (suc m) xs ≡ some (record { items = take (suc m) xs; next_cursor = some (key x) })
  cut-some m xs h = ground (arith, h)

  page_more :
      (m : ℕ) (after : Option Cursor) (rows : List A)
      → let whole = order_by key (select (λ r. starts_after after (key r)) rows) in
        suc m < length whole
        → (s : Split m whole)
        → page_of key (suc m) after rows
          ≡ some (record {
            items = take (suc m) (take (suc (suc m)) whole);
            next_cursor = some (key s.last);
          })
  page_more m after rows h s =
      let whole = order_by key (select (λ r. starts_after after (key r)) rows) in
      let len = length-take (suc (suc m)) whole (omega arith) in
      let more : ltb (suc m) (length (take (suc (suc m)) whole)) ≡ true = rw len (ground arith) in
      rw more (cut-some m _ s.at)

  walk_from :
      (n m : ℕ) (after : Option Cursor) (rows : List A)
      → Unequal key rows
      → length (order_by key (select (λ r. starts_after after (key r)) rows)) ≤ n
      → walk (suc n) (suc m) after rows
        ≡ order_by key (select (λ r. starts_after after (key r)) rows)
  walk_from zero m after rows d h =
      ap (follow (λ c. walk zero (suc m) (some c) rows)) (page_last m after rows (omega arith))
  walk_from (suc n) m after rows d h =
      let whole = order_by key (select (λ r. starts_after after (key r)) rows) in
      elim (Bool-cases (ltb (suc m) (length whole))) [
        | inr e ↦
            ap (follow (λ c. walk (suc n) (suc m) (some c) rows))
              (page_last m after rows (ground arith))
        | inl e ↦
            let s =
              Ascending-Split m whole (order_by-Ascending key _ (select-Unequal key _ rows d))
                (ground arith) in
            let next = next_rows rows after m d s in
            let ih =
              walk_from n m (some (key s.last)) rows d (rw next (omega (arith, s.shorter))) in
            ap (follow (λ c. walk (suc n) (suc m) (some c) rows))
              (page_more m after rows (ground arith) s)
            ∙ ap (λ ys. take (suc m) (take (suc (suc m)) whole) ++ ys) (ih ∙ next)
            ∙ s.whole
      ]

  -- The pages together are the ordered rows.
  walk-order_by :
      (limit : ℕ) (rows : List A)
      → 0 < limit
      → Unequal key rows
      → walk (suc (length rows)) limit none rows ≡ order_by key rows
  walk-order_by zero rows p d = absurd (omega arith)
  walk-order_by (suc m) rows p d =
      let all = select-All (λ (r : A). true) rows (All-of _ rows (λ x i. refl)) in
      let len = length-order_by key rows in
      walk_from (length rows) m none rows d (rw (all, len) (omega arith)) ∙ ap (order_by key) all

  -- With a positive limit, and rows with distinct ids, the pages that a client gets by following
  -- next_cursor from the first one are together a permutation of the rows, none twice and none left
  -- out, in strictly ascending order of (created_at, id); as many requests as there are rows, and
  -- one, are enough.
  pub walk_all :
      (limit : ℕ) (rows : List A)
      → 0 < limit
      → Unequal key rows
      → Ascending key (walk (suc (length rows)) limit none rows)
        × Permᴰ (walk (suc (length rows)) limit none rows) rows
  walk_all limit rows p d =
      rw (walk-order_by limit rows p d) (order_by-Ascending key rows d, order_by-Perm key rows)
