-- ===== src/SenderAuth/Spf/Ip.antt =====
-- `splitCIDR`, `ipMatch`, `ipMatchNetwork` and `ipMatchBits` of internal/senderauth/spf.go.
pub mod Block
use elec_postal.Base.{
  ℕ, ◌-◌, ◌*◌, ◌/◌, ◌%◌, ◌^◌, Bool, true, false, not, ◌&&◌, ◌||◌, Option, none, some, [], ltb, ◌==◌,
  if◌then◌else◌,
}
use elec_postal.Text.{Text, cut, is_nil}
use elec_postal.Text.Number.{pos, negsuc, Parsed, number, range_error, syntax_error, atoi}
use elec_postal.SenderAuth.State.{Ip}

abbrev domain_and_cidr : Text → Option (Text × Text) → Text × Text
domain_and_cidr arg none = (arg, [])
domain_and_cidr arg (some parts) = parts

unfoldable pub split_cidr : Text → Text × Text
unfolding cut
split_cidr arg = domain_and_cidr arg (cut b'/' arg)

-- `ip.To4()`
abbrev pub to4 : Ip → Option ℕ
to4 ip = if ip / 2 ^ 32 == 65535 then some (ip % 2 ^ 32) else none

abbrev pub is_none {ℓ} : {A : Type ℓ} → Option A → Bool
is_none none = true
is_none (some a) = false

-- `Mask(net.CIDRMask(ones, bits))` on an address of that many bits
abbrev pub mask : ℕ → ℕ → ℕ → ℕ
mask ones bits ip = ip / 2 ^ (bits - ones) * 2 ^ (bits - ones)

-- `Equal` after `Mask`; two absent addresses are equal
abbrev same4 : ℕ → Option ℕ → Option ℕ → Bool
same4 ones none none = true
same4 ones (some a) (some b) = mask ones 32 a == mask ones 32 b
same4 ones _ _ = false

abbrev same_network : Ip → Ip → ℕ → ℕ → Bool
same_network a b bits ones =
    if ltb bits ones
    then false
    else if bits == 32
    then same4 ones (to4 a) (to4 b)
    else mask ones bits a == mask ones bits b

abbrev same_at : Ip → Ip → ℕ → Parsed → Bool
same_at a b bits (number (pos ones)) = same_network a b bits ones
same_at a b bits (number (negsuc n)) = false
same_at a b bits (range_error n) = false
same_at a b bits syntax_error = false

unfoldable pub ip_match_bits : Ip → Ip → Text → ℕ → Bool
ip_match_bits a b cidr bits = same_at a b bits (atoi cidr)

unfoldable pub ip_match_network : Ip → Ip → Text → Bool
unfolding ip_match_bits
ip_match_network addr peer cidr =
    if is_nil cidr
    then addr == peer
    else if not (is_none (to4 addr)) && not (is_none (to4 peer))
    then ip_match_bits addr peer cidr 32
    else if (is_none (to4 addr) && not (is_none (to4 peer)))
        || (not (is_none (to4 addr)) && is_none (to4 peer))
    then false
    else ip_match_bits addr peer cidr 128

-- the tests of `ipMatch` behind the two calls of `net.ParseIP`
abbrev match_parsed : Text → ℕ → Option Ip → Option Ip → Bool
match_parsed cidr bits (some ip) (some peer) =
    let matched = if is_nil cidr then ip == peer else ip_match_bits ip peer cidr bits in
    if bits == 32
    then (if is_none (to4 ip) || is_none (to4 peer) then false else matched)
    else if not (is_none (to4 ip)) || not (is_none (to4 peer))
    then false
    else matched
match_parsed cidr bits _ _ = false

unfoldable pub ip_match : (Text → Option Ip) → Text → Text → ℕ → Bool
unfolding split_cidr ip_match_bits
ip_match parse_ip arg peer_ip bits =
    let (spec, cidr) = split_cidr arg in match_parsed cidr bits (parse_ip spec) (parse_ip peer_ip)
