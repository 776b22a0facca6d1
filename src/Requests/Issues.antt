-- ===== src/Requests/Issues.antt =====
-- The field -> issue map of a validation. No key is set twice, so a list in the order of the code is
-- that map.
use krane_event_management_p.Common.{String, Bool, true, false, ◌≡◌, refl, List, [], ◌∷◌, ◌++◌}

pub record Issue : Type 0 where
  pub field : String
  pub message : String

abbrev pub issue_if : Bool → String → String → List Issue
issue_if true field message = record { field = field; message = message } ∷ []
issue_if false field message = []

-- len(issues) > 0
abbrev pub has_issues {ℓ} : {A : Type ℓ} → List A → Bool
has_issues [] = false
has_issues (_ ∷ _) = true

pub append-nil_left {ℓ} : {A : Type ℓ} (xs ys : List A) → xs ++ ys ≡ [] → xs ≡ []
append-nil_left [] ys h = refl
append-nil_left (x ∷ xs) ys h = cc

pub append-nil_right {ℓ} : {A : Type ℓ} (xs ys : List A) → xs ++ ys ≡ [] → ys ≡ []
append-nil_right [] ys h = h
append-nil_right (x ∷ xs) ys h = cc

-- Without an issue, no test of the validation held.
pub issue_if-nil : (b : Bool) (field message : String) → issue_if b field message ≡ [] → b ≡ false
issue_if-nil true field message h = cc
issue_if-nil false field message h = refl
