-- ===== src/SenderAuth/Address.antt =====
-- `domainOf` of internal/senderauth/senderauth.go, which internal/spam/rules.go has once more.
use elec_postal.Base.{Option, none, some, [], ◌≡◌, refl}
use elec_postal.Text.{Text, codes, trim_space, trim_suffix, cut_last, to_lower}

abbrev after_angle : Text → Option (Text × Text) → Text
after_angle addr none = addr
after_angle addr (some (before, after)) = after

abbrev domain_part : Option (Text × Text) → Text
domain_part none = []
domain_part (some (local, domain)) = to_lower (trim_space domain)

unfoldable pub domain_of : Text → Text
unfolding cut_last trim_space trim_suffix to_lower
domain_of addr =
    let trimmed = trim_space addr in
    let bare = trim_suffix b'>' (after_angle trimmed (cut_last b'<' trimmed)) in
    domain_part (cut_last b'@' bare)

domain_of_test : domain_of (codes " Ann <Ann@Example.COM> ") ≡ codes "example.com"
unfolding domain_of
domain_of_test = refl
