-- ===== src/SenderAuth/Tests.antt =====
-- The theorems on SPF, DMARC and the cache at concrete records.
use elec_postal.Base.{
  ℕ, ◌+◌, ◌≤◌, ◌<◌, ◌≡◌, ◌≢◌, ◌↔◌, refl, true, false, Option, none, some, [], ◌∷◌, arith,
  if◌then◌else◌, ◌^◌, ◌*◌,
}
use elec_postal.Text.{Text, codes, text_eq, member, fields, has_prefix, to_lower, trim_space}
use elec_postal.Text.Number.{atoi}
use elec_postal.SenderAuth.State.{
  Verdict, pass, fail, neutral, permerror, allow, reject, Answer, records, not_found, Env, State,
  Ip,
}
use elec_postal.SenderAuth.Address.{domain_of}
use elec_postal.SenderAuth.Spf.Terms.{spf_record, qualifier, mechanism}
use elec_postal.SenderAuth.Spf.Terms.Laws.{Counts}
use elec_postal.SenderAuth.Spf.Ip.{ip_match, ip_match_bits}
use elec_postal.SenderAuth.Spf.Ip.Block.{Within, ip_match_bits_iff4, ip_match_bits_iff6}
use elec_postal.SenderAuth.Spf.Fuel.{eval_spf-fuel}
use elec_postal.SenderAuth.Spf.All.{eval_terms-all, eval_terms-ne-neutral}
use elec_postal.SenderAuth.Spf.Cost.{budget, eval_spf-cost}
use elec_postal.SenderAuth.Spf.{eval_terms, eval_spf, verify_spf}
use elec_postal.SenderAuth.Dmarc.Policy.{
  Allowed, Enforced, answer_at, verify_dmarc-allow_iff, verify_dmarc-enforce_iff,
}
use elec_postal.SenderAuth.Dmarc.{verify_dmarc}
use elec_postal.SenderAuth.Cache.Tracking.{IsTracked, empty-IsTracked, remember-IsTracked}
use elec_postal.SenderAuth.Cache.History.{Reply, In, Reach, start, reply, cached-Source}
use elec_postal.SenderAuth.Cache.{Cache, empty, remember, cached, ttl}

-- Names and their TXT records; the surroundings count the TXT lookups.
abbrev zone : Text → Answer
zone name =
    if text_eq name (codes "a.test")
    then records (codes "v=spf1 include:b.test -all" ∷ [])
    else if text_eq name (codes "b.test")
    then records (codes "v=spf1 ip4:10.0.0.0/8 ~all" ∷ [])
    else if text_eq name (codes "_dmarc.a.test")
    then records (codes "v=DMARC1; p=reject; aspf=strict" ∷ [])
    else not_found

-- 10.1.2.3, 10.0.0.0 and 192.0.2.1
abbrev v4 : ℕ → Ip
v4 n = 65535 * 2 ^ 32 + n

abbrev parse : Text → Option Ip
parse s =
    if text_eq s (codes "10.0.0.0")
    then some (v4 167772160)
    else if text_eq s (codes "10.1.2.3")
    then some (v4 167838211)
    else if text_eq s (codes "192.0.2.1")
    then some (v4 3221225985)
    else none

abbrev net : Env ℕ
net = record {
  expired = λ n. (false, n);
  lookup_txt = λ name n. (zone name, n + 1);
  lookup_ip = λ name n. (none, n);
  lookup_mx = λ name n. (none, n);
  parse_ip = parse;
}

net-Counts : Counts net (λ n. n)
net-Counts = record {
  txt = λ name w. omega arith;
  ip = λ name w. omega arith;
  mx = λ name w. omega arith;
  clock = λ w. omega arith;
}

spf_test : verify_spf net (codes "ann@a.test") (codes "10.1.2.3") 0 ≡ (pass, 2)
unfolding verify_spf domain_of spf_record text_eq qualifier mechanism ip_match has_prefix fields
    to_lower trim_space atoi
spf_test = refl

spf_fail_test : verify_spf net (codes "ann@a.test") (codes "192.0.2.1") 0 ≡ (fail, 2)
unfolding verify_spf domain_of spf_record text_eq qualifier mechanism ip_match has_prefix fields
    to_lower trim_space atoi
spf_fail_test = refl

abbrev record_a : Text
record_a = codes "v=spf1 include:b.test -all"

eval_spf-fuel_example :
    eval_spf net (5 + 10) record_a (codes "a.test") (codes "10.1.2.3") 0 0 0
    ≡ eval_spf net 10 record_a (codes "a.test") (codes "10.1.2.3") 0 0 0
eval_spf-fuel_example =
    eval_spf-fuel net 5 10 record_a (codes "a.test") (codes "10.1.2.3") 0 0 (omega arith) 0

eval_spf-cost_example :
    (eval_spf net 10 record_a (codes "a.test") (codes "10.1.2.3") 0 0 7).1 ≤ 7 + budget 10
eval_spf-cost_example = eval_spf-cost net-Counts 10 record_a (codes "a.test") (codes "10.1.2.3") 0 7

abbrev no_include : Text → State ℕ Verdict
no_include arg n = (permerror, n)

eval_terms-all_example :
    eval_terms net no_include 0
      (codes "a.test")
      (codes "192.0.2.1")
      0
      (codes "ip4:10.0.0.0/8" ∷ codes "-all" ∷ codes "ip4:192.0.2.1" ∷ [])
      0
    ≡ eval_terms net no_include 0
        (codes "a.test")
        (codes "192.0.2.1")
        0
        (codes "ip4:10.0.0.0/8" ∷ codes "-all" ∷ [])
        0
unfolding qualifier
eval_terms-all_example =
    eval_terms-all net no_include 0 (codes "a.test") (codes "192.0.2.1") 0
      (codes "ip4:10.0.0.0/8" ∷ []) (codes "ip4:192.0.2.1" ∷ []) (codes "-all") 0 refl

eval_terms-ne-neutral_example :
    (eval_terms net no_include 0
      (codes "a.test")
      (codes "192.0.2.1")
      0
      (codes "ip4:10.0.0.0/8" ∷ codes "-all" ∷ [])
      0).0
    ≢ neutral
unfolding qualifier
eval_terms-ne-neutral_example =
    eval_terms-ne-neutral net no_include 0 (codes "a.test") (codes "192.0.2.1") 0
      (codes "ip4:10.0.0.0/8" ∷ []) [] (codes "-all") 0 refl (λ e. absurd (omega arith))
      ((λ e. absurd (omega arith)), tt)

ip_match_bits_iff4_example :
    (ip_match_bits (v4 167772160) (v4 167838211) (codes "8") 32 ≡ true)
    ↔ Within (codes "8") 32 167772160 167838211
ip_match_bits_iff4_example =
    ip_match_bits_iff4 (v4 167772160) (v4 167838211) 167772160 167838211 (codes "8") refl refl

ip_match_bits_iff6_example :
    (ip_match_bits 4096 4097 (codes "120") 128 ≡ true) ↔ Within (codes "120") 128 4096 4097
ip_match_bits_iff6_example = ip_match_bits_iff6 4096 4097 (codes "120")

a_test-ne-nil : codes "a.test" ≢ []
a_test-ne-nil e = cc e

verify_dmarc-allow_iff_example :
    ((verify_dmarc (codes "a.test") (codes "a.test") pass fail [] net 0).0 ≡ allow)
    ↔ Allowed
        (codes "a.test")
        (codes "a.test")
        pass
        fail
        []
        (answer_at (codes "a.test") (codes "a.test") pass fail [] net 0 a_test-ne-nil)
verify_dmarc-allow_iff_example =
    verify_dmarc-allow_iff (codes "a.test") (codes "a.test") pass fail [] net 0 a_test-ne-nil

verify_dmarc-enforce_iff_example :
    ((verify_dmarc (codes "a.test") (codes "b.test") pass fail [] net 0).0 ≡ reject)
    ↔ Enforced
        (codes "a.test")
        (codes "b.test")
        pass
        fail
        []
        reject
        (answer_at (codes "a.test") (codes "b.test") pass fail [] net 0 a_test-ne-nil)
verify_dmarc-enforce_iff_example =
    verify_dmarc-enforce_iff (codes "a.test") (codes "b.test") pass fail [] net 0 a_test-ne-nil
      reject (λ e. cc e) (λ e. cc e)

abbrev one_reply : Reply
one_reply = record { asked = 100; name = codes "a.test"; answer = not_found }

abbrev one_entry : Cache
one_entry = record {
  entries = (codes "a.test", record { answer = not_found; expires = 160 }) ∷ [];
  order = codes "a.test" ∷ [];
}

one_entry-Reach : Reach (one_reply ∷ []) one_entry
unfolding remember member
one_entry-Reach = reply one_reply start refl

one_entry-hit : cached 159 (codes "a.test") one_entry ≡ some not_found
unfolding cached text_eq
one_entry-hit = refl

cached-Source_example :
    (r : Reply) × In r (one_reply ∷ [])
    × (r.name ≡ codes "a.test")
    × (r.answer ≡ not_found)
    × ((t : ℕ) × (ttl not_found ≡ some t) × (159 < r.asked + t))
cached-Source_example = cached-Source 159 (codes "a.test") not_found one_entry-Reach one_entry-hit

remember-IsTracked_example :
    (c' : Cache) × (remember 100 (codes "a.test") not_found empty ≡ some c') × IsTracked c'
remember-IsTracked_example = remember-IsTracked 100 (codes "a.test") not_found empty empty-IsTracked
