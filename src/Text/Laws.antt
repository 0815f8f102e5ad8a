-- ===== src/Text/Laws.antt =====
-- Laws of the text functions.
use elec_postal.Base.{◌≡◌, ◌↔◌, inl, inr, refl, ap, true, [], ◌∷◌, ◌++◌, arith, Bool-cases}
use elec_postal.Text.Defs.{Text, codes, text_eq, trim_space, fields, split, has_suffix}
use elec_postal.Text.Equality.{text_eq_iff}

fields_test : fields (codes " v=spf1  a ") ≡ codes "v=spf1" ∷ codes "a" ∷ []
unfolding fields
fields_test = refl

trim_test : trim_space (codes " \t a b\r\n") ≡ codes "a b"
unfolding trim_space
trim_test = refl

split_test : split b';' (codes "a;;b") ≡ codes "a" ∷ [] ∷ codes "b" ∷ []
unfolding split
split_test = refl

suffix_self : (s p : Text) → has_suffix (s ++ p) p ≡ true
unfolding has_suffix
suffix_self [] [] = refl
suffix_self [] (c ∷ p) = ground (arith, text_eq_iff (c ∷ p) (c ∷ p))
suffix_self (c ∷ s) p = ground (arith, suffix_self s p)

suffix_find : (s p : Text) → has_suffix s p ≡ true → (before : Text) × (s ≡ before ++ p)
unfolding has_suffix
suffix_find [] p h = ([], (text_eq_iff [] p).0 h)
suffix_find (c ∷ s) p h = elim (Bool-cases (text_eq (c ∷ s) p)) [
  | inl e ↦ ([], (text_eq_iff (c ∷ s) p).0 e)
  | inr e ↦ let (before, q) = suffix_find s p (ground (arith, e)) in (c ∷ before, ap (◌∷◌ c) q)
]

-- A suffix is what stands at the end, behind some other text.
pub has_suffix_iff : (s p : Text) → (has_suffix s p ≡ true) ↔ ((before : Text) × (s ≡ before ++ p))
has_suffix_iff s p = (suffix_find s p, λ h. rw h.1 (suffix_self h.0 p))
