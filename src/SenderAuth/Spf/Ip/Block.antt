-- ===== src/SenderAuth/Spf/Ip/Block.antt =====
-- What `ipMatchBits` of internal/senderauth/spf.go decides: two addresses lie in one network.
use native.Mathlib.Nat.{one-le-pow, mul-div_cancel}
use mathlib.Core.Path.{subst}
use elec_postal.Base.{
  sym, ◌∙◌, ap, ==_iff, ℕ, ◌+◌, ◌-◌, ◌*◌, ◌/◌, ◌^◌, ◌≤◌, ◌<◌, ◌≡◌, ◌↔◌, refl, true, some, arith,
  ltb, ◌==◌, Bool-cases, inl, inr,
}
use elec_postal.Text.{Text}
use elec_postal.Text.Number.{pos, negsuc, Parsed, number, range_error, syntax_error, atoi}
use elec_postal.SenderAuth.State.{Ip}
use elec_postal.SenderAuth.Spf.Ip.{to4, same_network, same_at, ip_match_bits}

-- The address is in the block that starts at `base * 2 ^ h` and holds `2 ^ h` addresses.
pub record InBlock (h base : ℕ) (a : ℕ) : Type 0 where
  pub above : base * 2 ^ h ≤ a
  pub below : a < (base + 1) * 2 ^ h

pow_pos : (h : ℕ) → 0 < 2 ^ h
pow_pos h = one-le-pow h 2 (omega arith)

div-InBlock : (h a : ℕ) → InBlock h (a / 2 ^ h) a
div-InBlock h a = record { above = grind (arith, pow_pos h); below = grind (arith, pow_pos h) }

InBlock-div : (h base a : ℕ) → InBlock h base a → a / 2 ^ h ≡ base
InBlock-div h base a b = grind (arith, pow_pos h)

-- both addresses lie in one block of `2 ^ h`
abbrev pub SameBlock : ℕ → ℕ → ℕ → Type 0
SameBlock h a b = (base : ℕ) × InBlock h base a × InBlock h base b

cancel : (q r p : ℕ) → 0 < p → q * p ≡ r * p → q ≡ r
cancel q r p h e = sym (mul-div_cancel q h) ∙ ap (λ (t : ℕ). t / p) e ∙ mul-div_cancel r h

quotients : (h a b : ℕ) → (a / 2 ^ h * 2 ^ h == b / 2 ^ h * 2 ^ h) ≡ true → a / 2 ^ h ≡ b / 2 ^ h
quotients h a b e = cancel (a / 2 ^ h) (b / 2 ^ h) (2 ^ h) (pow_pos h) ((==_iff _ _).0 e)

mask_iff : (h a b : ℕ) → ((a / 2 ^ h * 2 ^ h == b / 2 ^ h * 2 ^ h) ≡ true) ↔ SameBlock h a b
mask_iff h a b = (
  (λ e. (a / 2 ^ h, div-InBlock h a, rw (quotients h a b e) (div-InBlock h b))),
  (λ s.
      let e : a / 2 ^ h ≡ b / 2 ^ h = InBlock-div h s.0 a s.1 ∙ sym (InBlock-div h s.0 b s.2) in
      rw e (ground arith)),
)

-- The prefix length fits the width, and the addresses lie in one block of that length.
abbrev pub InNetwork : ℕ → ℕ → ℕ → ℕ → Type 0
InNetwork bits a b ones = (ones ≤ bits) × SameBlock (bits - ones) a b

-- The text is a prefix length, and the addresses lie in one network of it.
abbrev pub Within : Text → ℕ → ℕ → ℕ → Type 0
Within cidr bits a b = (ones : ℕ) × (atoi cidr ≡ number (pos ones)) × InNetwork bits a b ones

at_iff :
    (a b : Ip) (bits : ℕ) (P : ℕ → Type 0)
    → ((n : ℕ) → (same_network a b bits n ≡ true) ↔ P n)
    → (p : Parsed) → (same_at a b bits p ≡ true) ↔ ((ones : ℕ) × (p ≡ number (pos ones)) × P ones)
at_iff a b bits P h (number (pos n)) =
    ((λ e. (n, refl, (h n).0 e)), (λ s. (h n).1 (subst P (cc s.1) s.2)))
at_iff a b bits P h (number (negsuc n)) = ((λ e. cc e), (λ s. cc s.1))
at_iff a b bits P h (range_error n) = ((λ e. cc e), (λ s. cc s.1))
at_iff a b bits P h syntax_error = ((λ e. cc e), (λ s. cc s.1))

network_iff4 :
    (a b : Ip) (x y : ℕ)
    → to4 a ≡ some x
    → to4 b ≡ some y
    → (n : ℕ) → (same_network a b 32 n ≡ true) ↔ InNetwork 32 x y n
network_iff4 a b x y ha hb n =
    let m = mask_iff (32 - n) x y in
    rw (ha, hb)
      (elim (Bool-cases (ltb 32 n)) [
        | inl big ↦ rw big ((λ e. cc e), (λ s. absurd (ground (arith, s.0))))
        | inr small ↦ rw small ((λ e. (ground arith, m.0 e)), (λ s. m.1 s.1))
      ])

network_iff6 : (a b : Ip) (n : ℕ) → (same_network a b 128 n ≡ true) ↔ InNetwork 128 a b n
network_iff6 a b n =
    let m = mask_iff (128 - n) a b in
    elim (Bool-cases (ltb 128 n)) [
      | inl big ↦ rw big ((λ e. cc e), (λ s. absurd (ground (arith, s.0))))
      | inr small ↦ rw small ((λ e. (ground arith, m.0 e)), (λ s. m.1 s.1))
    ]

-- `ipMatchBits` on two IPv4 addresses holds exactly when the prefix length parses to a number of
-- at most 32 and both addresses lie in one aligned block of that length.
pub ip_match_bits_iff4 :
    (a b : Ip) (x y : ℕ) (cidr : Text)
    → to4 a ≡ some x
    → to4 b ≡ some y
    → (ip_match_bits a b cidr 32 ≡ true) ↔ Within cidr 32 x y
unfolding ip_match_bits
ip_match_bits_iff4 a b x y cidr ha hb =
    at_iff a b 32 (InNetwork 32 x y) (network_iff4 a b x y ha hb) (atoi cidr)

-- `ipMatchBits` at the width of IPv6 holds exactly when the prefix length parses to a number of at
-- most 128 and both addresses lie in one aligned block of that length.
pub ip_match_bits_iff6 :
    (a b : Ip) (cidr : Text) → (ip_match_bits a b cidr 128 ≡ true) ↔ Within cidr 128 a b
unfolding ip_match_bits
ip_match_bits_iff6 a b cidr = at_iff a b 128 (InNetwork 128 a b) (network_iff6 a b) (atoi cidr)
