-- ===== src/Relay/Tests.antt =====
-- The theorems on the router and the DNS report at concrete messages and records.
use elec_postal.Base.{◌≡◌, ◌⊎◌, refl, true, false, ◌&&◌, none, some, List, [], ◌∷◌, if◌then◌else◌}
use elec_postal.Text.{
  codes, text_eq, to_lower, member, trim_space, trim_suffix, split, contains_text,
}
use elec_postal.Relay.Router.{
  Message, Router, send, has_local_mx, normalize_hostname, filter_recipients, exclude_recipients,
}
use elec_postal.Relay.Dns.{
  DnsRecord, answer, failure, Checker, validate_custom_domain_dns, stage_report,
}
use elec_postal.Relay.Dns.Report.{some_good, some_kind, all_good, validate_custom_domain_dns_lem}
use elec_postal.Relay.Router.Complete.{traced, send_complete}

-- here.org is served by this host.
abbrev router : Router Unit Unit
router = record {
  inbound_host = codes "MX.here.org.";
  local_delivery = some (λ message rs w. (true, w));
  fallback = λ message w. (true, w);
  lookup_mx = λ domain w.
      (if text_eq domain (codes "here.org") then some (codes "mx.here.org." ∷ []) else none, w);
  parse_address = λ raw. some raw;
}

abbrev message : Message Unit
message = record {
  to = codes "Ann@here.org" ∷ codes "bob@far.net" ∷ [];
  cc = codes "eve@here.org" ∷ [];
  bcc = [];
  content = tt;
}

split_example :
    (send (traced router) message (tt, ([], []))).1.1
    ≡ (codes "ann@here.org" ∷ codes "eve@here.org" ∷ [], codes "bob@far.net" ∷ [])
unfolding send text_eq to_lower member trim_space trim_suffix split contains_text has_local_mx
    normalize_hostname filter_recipients exclude_recipients
split_example = refl

send_complete_example :
    let q = send (traced router) message (tt, ([], [])) in
    ((member (to_lower (codes "Ann@here.org")) q.1.1.0 ≡ true)
      × (member (codes "Ann@here.org") q.1.1.1 ≡ false))
    ⊎ ((member (to_lower (codes "Ann@here.org")) q.1.1.0 ≡ false)
        × (member (codes "Ann@here.org") q.1.1.1 ≡ true))
unfolding send text_eq to_lower member trim_space trim_suffix split contains_text has_local_mx
    normalize_hostname filter_recipients exclude_recipients
send_complete_example = send_complete router message tt (codes "Ann@here.org") refl refl

-- The domain publishes its CNAME and its MX record, and no SPF record.
abbrev checker : Checker Unit
checker = record {
  lookup_cname = λ name w. (answer (codes "t.dkim.amazonses.com."), w);
  lookup_txt = λ name w. (failure (codes "no such host"), w);
  lookup_mx = λ name w. (answer (codes "mx.here.org." ∷ []), w);
}

abbrev published : List DnsRecord
published =
    record { name = codes "t"; kind = codes "CNAME"; value = codes "t.dkim.amazonses.com" }
    ∷ record { name = codes "bounce"; kind = codes "TXT"; value = codes "v=spf1" }
    ∷ record { name = codes "here.org"; kind = codes "MX"; value = codes "10 mx.here.org" }
    ∷ []

stage_test :
    stage_report (validate_custom_domain_dns checker (codes "mx.here.org") published [] tt).0
    ≡ codes "completed"
unfolding stage_report validate_custom_domain_dns
stage_test = refl

validate_custom_domain_dns_lem_example :
    let v = (validate_custom_domain_dns checker (codes "mx.here.org") published [] tt).0 in
    (v.dkim ≡ (some_kind (codes "CNAME") v.results && all_good (codes "CNAME") v.results))
    × (v.spf ≡ some_good (codes "TXT") v.results)
    × (v.mx ≡ some_good (codes "MX") v.results)
validate_custom_domain_dns_lem_example =
    validate_custom_domain_dns_lem checker (codes "mx.here.org") published [] tt
