-- ===== src/Text/Equality.antt =====
-- The tests on texts decide equality and membership.
use elec_postal.Base.{◌≡◌, ◌≢◌, ◌↔◌, refl, true, false, [], ◌∷◌, arith, inl, inr, ◌⊎◌}
use elec_postal.Text.Defs.{Text, text_eq, is_nil}

pub text_eq_refl : (a : Text) → text_eq a a ≡ true
unfolding text_eq
text_eq_refl [] = refl
text_eq_refl (x ∷ a) = ground (arith, text_eq_refl a)

pub text_eq_iff : (a b : Text) → (text_eq a b ≡ true) ↔ (a ≡ b)
unfolding text_eq
text_eq_iff [] [] = ground arith
text_eq_iff (x ∷ a) (y ∷ b) = ground (arith, text_eq_iff a b)
text_eq_iff _ _ = ground arith

pub text_eq_ne : (a b : Text) → a ≢ b → text_eq a b ≡ false
text_eq_ne a b h = ground (arith, text_eq_iff a b)

-- An empty text is told by `is_nil`.
pub nil-cases : (t : Text) → ((t ≡ []) × (is_nil t ≡ true)) ⊎ ((t ≢ []) × (is_nil t ≡ false))
nil-cases [] = inl (refl, refl)
nil-cases (c ∷ t) = inr ((λ e. cc e), refl)
