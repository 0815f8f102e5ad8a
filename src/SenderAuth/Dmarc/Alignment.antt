-- ===== src/SenderAuth/Dmarc/Alignment.antt =====
-- What `alignedDomain` of internal/senderauth/dmarc.go decides.
use elec_postal.Base.{◌≡◌, ◌≢◌, ◌↔◌, ◌⊎◌, inl, inr, refl, true, [], ◌∷◌, ◌++◌, arith, Bool-cases}
use elec_postal.Text.{Text, codes, to_lower, trim_space, text_eq_iff, text_eq}
use elec_postal.Text.Laws.{has_suffix_iff}
use elec_postal.SenderAuth.Dmarc.{aligned, aligned_domain}

abbrev pub normal : Text → Text
normal d = to_lower (trim_space d)

-- `d` is a proper subdomain of `from`.
abbrev pub IsSubdomain : Text → Text → Type 0
IsSubdomain d from = (labels : Text) × (d ≡ labels ++ b'.' ∷ from)

-- Neither domain is empty, and they are equal or, unless the mode is "strict", the one is a
-- subdomain of the other.
abbrev pub Aligned : Text → Text → Text → Type 0
Aligned d from mode =
    (d ≢ []) × (from ≢ []) × ((d ≡ from) ⊎ ((mode ≢ codes "strict") × IsSubdomain d from))

aligned_iff : (d from mode : Text) → (aligned d from mode ≡ true) ↔ Aligned d from mode
unfolding aligned
aligned_iff [] from mode = (λ h. cc h, λ h. absurd (h.0 refl))
aligned_iff (c ∷ d) [] mode = (λ h. cc h, λ h. absurd (h.1 refl))
aligned_iff (c ∷ d) (e ∷ from) mode =
    let same = text_eq_iff (c ∷ d) (e ∷ from) in
    let strict = text_eq_iff mode (codes "strict") in
    let sub = has_suffix_iff (c ∷ d) (b'.' ∷ e ∷ from) in
    (
      λ h. (
        λ p. cc p,
        λ p. cc p,
        elim (Bool-cases (text_eq (c ∷ d) (e ∷ from))) [
          | inl s ↦ inl (same.0 s)
          | inr n ↦ inr ((λ p. ground (arith, strict, n)), sub.0 (ground (arith, strict, n)))
        ],
      ),
      λ h. elim h.2 [ inl s ↦ rw (same.1 s) | inr (m, s) ↦ ground (arith, strict, sub.1 s) ],
    )

-- `alignedDomain` decides alignment of the trimmed and lowercased domains, both ways.
pub aligned_domain_iff :
    (d from mode : Text)
    → (aligned_domain d from mode ≡ true) ↔ Aligned (normal d) (normal from) mode
unfolding aligned_domain
aligned_domain_iff d from mode = aligned_iff (normal d) (normal from) mode
