-- ===== src/SenderAuth/Dkim/Canonical/Laws.antt =====
-- Laws of the canonical forms of internal/senderauth/dkim.go.
use elec_postal.Base.{◌≡◌, ◌≢◌, refl, Bool, true, false, List, [], ◌∷◌, ◌++◌, arith, All}
use elec_postal.Text.{Text, codes, trim_space, split}
use elec_postal.SenderAuth.Dkim.Canonical.{
  Header, is_wsp, collapse_from, collapse_wsp, signed_names, canonicalize_signed_headers,
}

-- a run of spaces and tabs
abbrev IsRun : Text → Type 0
IsRun x = (x ≢ []) × All (λ c. is_wsp c ≡ true) x

collapse_from-wsp :
    (x b : Text) → All (λ c. is_wsp c ≡ true) x → collapse_from true (x ++ b) ≡ collapse_from true b
unfolding collapse_from
collapse_from-wsp [] b h = refl
collapse_from-wsp (c ∷ x) b (hc, hx) = ground (arith, collapse_from-wsp x b hx)

collapse_from-run :
    (pending : Bool) (x b : Text) → IsRun x → collapse_from pending (x ++ b) ≡ collapse_from true b
unfolding collapse_from
collapse_from-run pending [] b (h, run) = absurd (h refl)
collapse_from-run pending (c ∷ x) b (h, (hc, hx)) = ground (arith, collapse_from-wsp x b hx)

collapse_from-exchange :
    (pending : Bool) (a x y b : Text)
    → IsRun x
    → IsRun y
    → collapse_from pending (a ++ x ++ b) ≡ collapse_from pending (a ++ y ++ b)
unfolding collapse_from
collapse_from-exchange pending [] x y b hx hy =
    rw (collapse_from-run pending x b hx, collapse_from-run pending y b hy) refl
collapse_from-exchange pending (c ∷ a) x y b hx hy =
    rw (collapse_from-exchange true a x y b hx hy, collapse_from-exchange false a x y b hx hy) refl

-- A run of spaces and tabs may be exchanged for any other run: collapseWSP gives the same text.
collapse_wsp-exchange :
    (a x y b : Text) → IsRun x → IsRun y → collapse_wsp (a ++ x ++ b) ≡ collapse_wsp (a ++ y ++ b)
unfolding collapse_wsp
collapse_wsp-exchange = collapse_from-exchange false

abbrev dkim_name : Text
dkim_name = codes "DKIM-Signature"

module _ (canonical : Text → Text) (old new : Text → List Text) (relaxed : Bool) where
  abbrev with_values : (Text → List Text) → Header
  with_values values = record { canonical = canonical; values = values }

  signed_names-unsigned :
      ((name : Text) → name ≢ canonical dkim_name → old name ≡ new name)
      → (names : List Text) → All (λ raw. canonical (trim_space raw) ≢ canonical dkim_name) names
      → signed_names (with_values old) names relaxed ≡ signed_names (with_values new) names relaxed
  unfolding signed_names
  signed_names-unsigned same [] unsigned = refl
  signed_names-unsigned same (raw ∷ names) (other, others) =
      rw (same (canonical (trim_space raw)) other, signed_names-unsigned same names others) refl

  -- If the list of the signed headers does not name DKIM-Signature, then the bytes that are hashed
  -- for the signature do not depend on any DKIM-Signature header.
  pub canonicalize_signed_headers-unsigned :
      (listed : Text)
      → ((name : Text) → name ≢ canonical dkim_name → old name ≡ new name)
      → All (λ raw. canonical (trim_space raw) ≢ canonical dkim_name) (split b':' listed)
      → canonicalize_signed_headers (with_values old) listed relaxed
        ≡ canonicalize_signed_headers (with_values new) listed relaxed
  unfolding canonicalize_signed_headers
  canonicalize_signed_headers-unsigned listed same unsigned =
      signed_names-unsigned same (split b':' listed) unsigned
