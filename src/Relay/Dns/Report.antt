-- ===== src/Relay/Dns/Report.antt =====
-- What the report of internal/relay/dns.go says about its records.
use elec_postal.Base.{
  ℕ, ◌+◌, ◌≤◌, ◌≡◌, refl, Bool, true, false, not, ◌&&◌, ◌||◌, List, [], ◌∷◌, ◌++◌, arith, ltb, ◌==◌,
  if◌then◌else◌,
}
use elec_postal.Text.{Text, codes, text_eq, text_eq_iff}
use elec_postal.Relay.Dns.{
  DnsRecord, RecordResult, Checker, Progress, no_progress, add_result, check_record, check_records,
  validate_custom_domain_dns,
}

-- Some result of this kind is good.
abbrev pub some_good : Text → List RecordResult → Bool
some_good kind [] = false
some_good kind (r ∷ rs) = (text_eq r.checked_kind kind && r.ok) || some_good kind rs

-- There is a result of this kind.
abbrev pub some_kind : Text → List RecordResult → Bool
some_kind kind [] = false
some_kind kind (r ∷ rs) = text_eq r.checked_kind kind || some_kind kind rs

-- Every result of this kind is good.
abbrev pub all_good : Text → List RecordResult → Bool
all_good kind [] = true
all_good kind (r ∷ rs) = (not (text_eq r.checked_kind kind) || r.ok) && all_good kind rs

some_good-append :
    (kind : Text) (rs : List RecordResult) (r : RecordResult)
    → some_good kind (rs ++ r ∷ []) ≡ (some_good kind rs || (text_eq r.checked_kind kind && r.ok))
some_good-append kind [] r = ground arith
some_good-append kind (x ∷ rs) r = ground (arith, some_good-append kind rs r)

abbrev count_kind : Text → List RecordResult → ℕ
count_kind kind [] = 0
count_kind kind (r ∷ rs) =
    let n = count_kind kind rs in if text_eq r.checked_kind kind then n + 1 else n

abbrev count_good : Text → List RecordResult → ℕ
count_good kind [] = 0
count_good kind (r ∷ rs) =
    let n = count_good kind rs in if text_eq r.checked_kind kind && r.ok then n + 1 else n

count_kind-append :
    (kind : Text) (rs : List RecordResult) (r : RecordResult)
    → count_kind kind (rs ++ r ∷ [])
      ≡ (if text_eq r.checked_kind kind then count_kind kind rs + 1 else count_kind kind rs)
count_kind-append kind [] r = ground arith
count_kind-append kind (x ∷ rs) r = ground (arith, count_kind-append kind rs r)

count_good-append :
    (kind : Text) (rs : List RecordResult) (r : RecordResult)
    → count_good kind (rs ++ r ∷ [])
      ≡ (if text_eq r.checked_kind kind && r.ok then count_good kind rs + 1 else count_good kind rs)
count_good-append kind [] r = ground arith
count_good-append kind (x ∷ rs) r = ground (arith, count_good-append kind rs r)

count_good-le : (kind : Text) (rs : List RecordResult) → count_good kind rs ≤ count_kind kind rs
count_good-le kind [] = omega arith
count_good-le kind (r ∷ rs) = ground (arith, count_good-le kind rs)

counts-all_good :
    (kind : Text) (rs : List RecordResult)
    → (count_good kind rs == count_kind kind rs) ≡ all_good kind rs
counts-all_good kind [] = refl
counts-all_good kind (r ∷ rs) = ground (arith, counts-all_good kind rs, count_good-le kind rs)

counts-some_kind :
    (kind : Text) (rs : List RecordResult) → ltb 0 (count_kind kind rs) ≡ some_kind kind rs
counts-some_kind kind [] = refl
counts-some_kind kind (r ∷ rs) = ground (arith, counts-some_kind kind rs)

-- The counters and flags sum up the results so far.
pub record IsSummary (p : Progress) : Type 0 where
  total : p.dkim_total ≡ count_kind (codes "CNAME") p.done
  good : p.dkim_ok ≡ count_good (codes "CNAME") p.done
  spf : p.some_spf ≡ some_good (codes "TXT") p.done
  mx : p.some_mx ≡ some_good (codes "MX") p.done

-- A text equals only one of two different ones.
exclusive : (k a b : Text) → text_eq a b ≡ false → text_eq k a ≡ true → text_eq k b ≡ false
exclusive k a b e h = rw ((text_eq_iff k a).0 h) e

add_result-IsSummary : (r : RecordResult) (p : Progress) → IsSummary p → IsSummary (add_result r p)
unfolding text_eq
add_result-IsSummary r p h =
    let k = r.checked_kind in
    let c = exclusive k (codes "CNAME") (codes "TXT") refl in
    let d = exclusive k (codes "CNAME") (codes "MX") refl in
    let e = exclusive k (codes "TXT") (codes "MX") refl in
    record {
      total = ground (arith, h.total, count_kind-append (codes "CNAME") p.done r);
      good = ground (arith, h.good, count_good-append (codes "CNAME") p.done r);
      spf = ground (arith, h.spf, c, some_good-append (codes "TXT") p.done r);
      mx = ground (arith, h.mx, d, e, some_good-append (codes "MX") p.done r);
    }

module _ {W : Type 0} (checker : Checker W) (inbound : Text) where
  check_records-IsSummary :
      (rs : List DnsRecord) (p : Progress) (w : W)
      → IsSummary p
      → IsSummary (check_records checker inbound rs p w).0
  unfolding check_records
  check_records-IsSummary [] p w h = h
  check_records-IsSummary (r ∷ rs) p w h =
      let (result, w') = check_record checker inbound r w in
      check_records-IsSummary rs (add_result result p) w' (add_result-IsSummary result p h)

  -- In the report of ValidateCustomDomainDNS, whatever the resolver answers: DKIM holds just if there
  -- is a CNAME record and every one is good, SPF just if some TXT record is good, and MX just if
  -- some MX record is good.
  pub validate_custom_domain_dns_lem :
      (records : List DnsRecord) (resolver_name : Text) (w : W)
      → let v = (validate_custom_domain_dns checker inbound records resolver_name w).0 in
        (v.dkim ≡ (some_kind (codes "CNAME") v.results && all_good (codes "CNAME") v.results))
        × (v.spf ≡ some_good (codes "TXT") v.results)
        × (v.mx ≡ some_good (codes "MX") v.results)
  unfolding validate_custom_domain_dns
  validate_custom_domain_dns_lem records resolver_name w =
      let p = (check_records checker inbound records no_progress w).0 in
      let h =
        check_records-IsSummary records no_progress w
          (record { total = refl; good = refl; spf = refl; mx = refl }) in
      (
        rw
            (
              h.total,
              h.good,
              counts-some_kind (codes "CNAME") p.done,
              counts-all_good (codes "CNAME") p.done,
            )
            refl,
        h.spf,
        h.mx,
      )
