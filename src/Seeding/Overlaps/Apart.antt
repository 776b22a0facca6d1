-- ===== src/Seeding/Overlaps/Apart.antt =====
-- In a sorted list, a look at the neighbours finds an overlap exactly where there is one.
use mathlib.Core.List.{Permᴰ}
use krane_event_management_p.Common.{
  ◌<◌, ◌≡◌, ◌↔◌, refl, false, ◌&&◌, ltb, none, List, [], ◌∷◌, All, All_mono, Pairwise, arith, subst,
}
use krane_event_management_p.Seeding.{Placed}
use krane_event_management_p.Seeding.Overlaps.{check_from, check_group}

-- What sort.Slice documents of the function that it is given: the same elements, in order.
pub record IsSliceSort (sort : List Placed → List Placed) : Type 0 where
  pub perm : (xs : List Placed) → Permᴰ (sort xs) xs
  pub sorted :
      (xs : List Placed)
      → Pairwise (λ a b. ltb b.booking.starts_at a.booking.starts_at ≡ false) (sort xs)

abbrev pub Apart : Placed → Placed → Type 0
Apart a b =
    (ltb a.booking.starts_at b.booking.ends_at && ltb b.booking.starts_at a.booking.ends_at) ≡ false

abbrev pub Lasts : Placed → Type 0
Lasts s = s.booking.starts_at < s.booking.ends_at

abbrev pub Sorted : List Placed → Type 0
Sorted = Pairwise (λ a b. ltb b.booking.starts_at a.booking.starts_at ≡ false)

-- Symmetric relations do not see the order.
pub All-Perm {κ} : (P : Placed → Type κ) {xs ys : List Placed} → Permᴰ xs ys → All P xs → All P ys
All-Perm P Permᴰ.nil h = tt
All-Perm P (Permᴰ.cons e p) h = (subst P e h.0, All-Perm P p h.1)
All-Perm P (Permᴰ.swap e e') h = (subst P e' h.1.0, (subst P e h.0, h.1.1))
All-Perm P (Permᴰ.trans p q) h = All-Perm P q (All-Perm P p h)

pub Pairwise-Perm :
    (R : Placed → Placed → Type 0) {xs ys : List Placed}
    → ((a b : Placed) → R a b → R b a)
    → Permᴰ xs ys
    → Pairwise R xs
    → Pairwise R ys
Pairwise-Perm R s Permᴰ.nil h = tt
Pairwise-Perm R s (Permᴰ.cons {l₁ = l} e p) h =
    (All-Perm _ p (subst (λ z. All (R z) l) e h.0), Pairwise-Perm R s p h.1)
Pairwise-Perm R s (Permᴰ.swap {b = b} {b' = b'} {l = l} e e') h = (
  (subst (λ z. R z b') e' (subst (R b) e (s _ _ h.0.0)), subst (λ z. All (R z) l) e' h.1.0),
  (subst (λ z. All (R z) l) e h.0.1, h.1.1),
)
Pairwise-Perm R s (Permᴰ.trans p q) h = Pairwise-Perm R s q (Pairwise-Perm R s p h)

-- In order, neighbours that do not overlap leave no two that do.
check_from-Apart :
    (prev : Placed) (xs : List Placed)
    → Sorted (prev ∷ xs)
    → check_from prev xs ≡ none
    → Pairwise Apart (prev ∷ xs)
check_from-Apart prev [] s h = (tt, tt)
check_from-Apart prev (cur ∷ rest) s h =
    let before : ltb cur.booking.starts_at prev.booking.ends_at ≡ false = ground (arith, h) in
    (
      (ground (arith, before), All_mono _ _ rest s.1.0 (λ x k. ground (arith, k, before))),
      check_from-Apart cur rest s.1 (ground (arith, h)),
    )

Apart-check_from :
    (prev : Placed) (xs : List Placed)
    → Sorted (prev ∷ xs)
    → All Lasts (prev ∷ xs)
    → Pairwise Apart (prev ∷ xs)
    → check_from prev xs ≡ none
Apart-check_from prev [] s w h = refl
Apart-check_from prev (cur ∷ rest) s w h =
    ground (arith, h.0.0, s.0.0, w.1.0, Apart-check_from cur rest s.1 w.1 h.1)

pub check_group_iff :
    (xs : List Placed) → Sorted xs → All Lasts xs → (check_group xs ≡ none) ↔ Pairwise Apart xs
check_group_iff [] s w = (λ h. tt, λ h. refl)
check_group_iff (x ∷ xs) s w = (check_from-Apart x xs s, Apart-check_from x xs s w)

pub Apart-sym : (a b : Placed) → Apart a b → Apart b a
Apart-sym a b h = ground (arith, h)
