-- ===== src/Relay/Dns.antt =====
-- internal/relay/dns.go: the check of the records that a custom domain publishes.
pub mod Report
use elec_postal.Base.{
  ℕ, ◌+◌, Bool, false, not, ◌&&◌, ◌||◌, List, [], ◌∷◌, ◌++◌, map, ltb, ◌==◌, if◌then◌else◌,
}
use elec_postal.Text.{
  Text, codes, text_eq, is_nil, has_prefix, contains_text, join, to_lower, trim_space, trim_suffix,
}
use elec_postal.SenderAuth.State.{State, ◌>>=◌, pure}

pub record DnsRecord : Type 0 where
  pub name : Text
  pub kind : Text
  pub value : Text

pub record RecordResult : Type 0 where
  pub checked : Text
  pub checked_kind : Text
  pub want : Text
  pub got : Text
  pub detail : Text
  pub ok : Bool

-- an answer of the resolver, or the text of its error
pub data Lookup (A : Type 0) : Type 0 where
  answer : A → Lookup A
  failure : Text → Lookup A

-- `DNSChecker`; of an MX record, the host
pub record Checker (W : Type 0) : Type 0 where
  pub lookup_cname : Text → State W (Lookup Text)
  pub lookup_txt : Text → State W (Lookup (List Text))
  pub lookup_mx : Text → State W (Lookup (List Text))

pub record Validation : Type 0 where
  pub resolver : Text
  pub results : List RecordResult
  pub dkim : Bool
  pub spf : Bool
  pub mx : Bool

abbrev normalize : Text → Text
normalize value = to_lower (trim_suffix b'.' (trim_space value))

unfoldable pub equal_host : Text → Text → Bool
unfolding to_lower trim_suffix trim_space text_eq
equal_host a b = text_eq (normalize a) (normalize b)

unfoldable pub contains_spf : List Text → Bool
unfolding to_lower trim_space has_prefix contains_text
contains_spf [] = false
contains_spf (value ∷ values) =
    let lower = to_lower (trim_space value) in
    (has_prefix lower (codes "v=spf1") && contains_text lower (codes "amazonses.com"))
    || contains_spf values

unfoldable pub some_host : List Text → Text → Bool
unfolding equal_host
some_host [] inbound = false
some_host (host ∷ hosts) inbound = equal_host host inbound || some_host hosts inbound

abbrev unchecked : DnsRecord → RecordResult
unchecked r = record {
  checked = r.name;
  checked_kind = r.kind;
  want = r.value;
  got = [];
  detail = [];
  ok = false;
}

-- a record that was found, and the detail where it does not match
abbrev matched : DnsRecord → Text → Bool → Text → RecordResult
matched r got good detail = record (unchecked r) {
  got = got;
  ok = good;
  detail = if good then [] else detail;
}

unfoldable pub cname_result : DnsRecord → Lookup Text → RecordResult
unfolding equal_host
cname_result r (failure e) = record (unchecked r) { detail = e }
cname_result r (answer got) = matched r got (equal_host got r.value) (codes "CNAME does not match")

unfoldable pub txt_result : DnsRecord → Lookup (List Text) → RecordResult
unfolding contains_spf join
txt_result r (failure e) = record (unchecked r) { detail = e }
txt_result r (answer values) =
    matched r (join (codes " ") values) (contains_spf values) (codes "no matching SPF TXT record")

unfoldable pub mx_result : Text → DnsRecord → Lookup (List Text) → RecordResult
unfolding some_host join trim_suffix
mx_result inbound r (failure e) = record (unchecked r) { detail = e }
mx_result inbound r (answer hosts) =
    matched r (join (codes " ") (map (trim_suffix b'.') hosts)) (some_host hosts inbound)
      (codes "inbound MX record missing")

-- the validation so far, with `dkimTotal` and `dkimOK`
pub record Progress : Type 0 where
  pub done : List RecordResult
  pub dkim_total : ℕ
  pub dkim_ok : ℕ
  pub some_spf : Bool
  pub some_mx : Bool

abbrev pub no_progress : Progress
no_progress = record { done = []; dkim_total = 0; dkim_ok = 0; some_spf = false; some_mx = false }

-- what a result changes besides the list: the end of its case of the switch
abbrev pub count_result : RecordResult → Progress → Progress
count_result r p =
    if text_eq r.checked_kind (codes "CNAME")
    then record p {
      dkim_total = p.dkim_total + 1;
      dkim_ok = if r.ok then p.dkim_ok + 1 else p.dkim_ok;
    }
    else if text_eq r.checked_kind (codes "TXT")
    then record p { some_spf = p.some_spf || r.ok }
    else if text_eq r.checked_kind (codes "MX")
    then record p { some_mx = p.some_mx || r.ok }
    else p

abbrev pub add_result : RecordResult → Progress → Progress
add_result r p = record (count_result r p) { done = p.done ++ r ∷ [] }

module _ {W : Type 0} (checker : Checker W) (inbound : Text) where
  unfoldable pub check_record : DnsRecord → State W RecordResult
  unfolding cname_result txt_result mx_result
  check_record r =
      if text_eq r.kind (codes "CNAME")
      then (do a ← checker.lookup_cname r.name; pure (cname_result r a))
      else if text_eq r.kind (codes "TXT")
      then (do a ← checker.lookup_txt r.name; pure (txt_result r a))
      else if text_eq r.kind (codes "MX")
      then if is_nil inbound
        then pure (record (unchecked r) { detail = codes "inbound MX not configured" })
        else (do a ← checker.lookup_mx r.name; pure (mx_result inbound r a))
      else pure (record (unchecked r) { detail = codes "unsupported record type" })

  unfoldable pub check_records : List DnsRecord → Progress → State W Progress
  unfolding check_record
  check_records [] p = pure p
  check_records (r ∷ rs) p = do result ← check_record r; check_records rs (add_result result p)

  unfoldable pub validate_custom_domain_dns : List DnsRecord → Text → State W Validation
  unfolding check_records
  validate_custom_domain_dns records resolver_name = do
    p ← check_records records no_progress
    pure (record {
      resolver = resolver_name;
      results = p.done;
      dkim = ltb 0 p.dkim_total && p.dkim_ok == p.dkim_total;
      spf = p.some_spf;
      mx = p.some_mx;
    })

unfoldable pub stage_report : Validation → Text
stage_report v =
    if v.mx then codes "completed" else if v.dkim && v.spf then codes "full" else codes "basic"
