-- ===== src/SenderAuth/Spf/Cost.antt =====
-- How many TXT records an evaluation looks up at most.
use native.Mathlib.Decide.{dec_le}
use elec_postal.Base.{
  ℕ, zero, suc, ◌+◌, ◌-◌, ◌*◌, ◌≤◌, ◌<◌, ◌≡◌, true, false, List, [], ◌∷◌, arith, Bool-cases, inl,
  inr, if◌then◌else◌,
}
use elec_postal.Text.{is_nil, Text, fields}
use elec_postal.SenderAuth.State.{
  Verdict, permerror, State, pure, Env, Answer, records, not_found, failed,
}
use elec_postal.SenderAuth.Spf.Terms.{
  Match, matched, level, is_modifier, mechanism, qualifier, spf_record,
}
use elec_postal.SenderAuth.Spf.Terms.Laws.{Counts, match_host-cost, match_mx-cost}
use elec_postal.SenderAuth.Spf.{
  Step, stop, next, proceed, is_dns, tail_of, eval_include, included_record, run_mechanism,
  after_match, bare_step, term_step, eval_terms, eval_spf,
}

-- The lookups of a record at a depth with so many levels of includes below it.
abbrev pub budget : ℕ → ℕ
budget zero = 0
budget (suc fuel) = 10 * (1 + budget fuel)

-- After a step that goes on, `count` is what it was or one more, and one more include is paid.
abbrev Pays : ℕ → ℕ → ℕ → Step → ℕ → Type 0
Pays k count before (stop v) after = after ≤ before + (10 - count) * k
Pays k count before (next n) after = after + (10 - n) * k ≤ before + (10 - count) * k

spend : (count k : ℕ) → count + 1 ≤ 10 → k + (10 - (count + 1)) * k ≡ (10 - count) * k
spend count k small =
    let e : 10 - count ≡ suc (10 - (count + 1)) = omega arith in rw e (omega arith)

spent : (count k : ℕ) → 10 < count + 1 → (10 - (count + 1)) * k ≡ 0
spent count k big = let e : 10 - (count + 1) ≡ 0 = omega arith in rw e (omega arith)

after_match-Pays :
    (k count before q count' : ℕ) (m : Match) (after : ℕ)
    → after + (10 - count') * k ≤ before + (10 - count) * k
    → Pays k count before (after_match q count' m) after
after_match-Pays k count before q count' (level v) after h = omega arith
after_match-Pays k count before q count' (matched true) after h = omega arith
after_match-Pays k count before q count' (matched false) after h = h

Pays-mono :
    (k count before before' : ℕ) (step : Step) (after : ℕ)
    → before' ≤ before
    → Pays k count before' step after
    → Pays k count before step after
Pays-mono k count before before' (stop v) after h p = omega arith
Pays-mono k count before before' (next n) after h p = omega arith

proceed-cost :
    {W : Type 0} (cost : W → ℕ) (loop : ℕ → State W Verdict) (k : ℕ)
    → ((n : ℕ) (w : W) → cost (loop n w).1 ≤ cost w + (10 - n) * k)
    → (count before : ℕ) (step : Step) (w : W) → Pays k count before step (cost w)
    → cost (proceed loop step w).1 ≤ before + (10 - count) * k
proceed-cost cost loop k h count before (stop v) w p = p
proceed-cost cost loop k h count before (next n) w p = omega (arith, h n w)

module _ {W : Type 0} {env : Env W} {cost : W → ℕ} (h : Counts env cost) where
  included_record-cost :
      (evaluate : Text → Text → State W Verdict) (k : ℕ)
      → ((r d : Text) (w : W) → cost (evaluate r d w).1 ≤ cost w + k)
      → (domain : Text) (answer : Answer) (w : W)
      → cost (included_record env evaluate domain answer w).1 ≤ cost w + k
  unfolding included_record
  included_record-cost evaluate k hk domain (records rs) w =
      ground (arith, hk (spf_record rs) domain w)
  included_record-cost evaluate k hk domain not_found w = omega arith
  included_record-cost evaluate k hk domain failed w = omega arith

  eval_include-cost :
      (evaluate : Text → Text → State W Verdict) (k : ℕ)
      → ((r d : Text) (w : W) → cost (evaluate r d w).1 ≤ cost w + k)
      → (domain : Text) (w : W) → cost (eval_include env evaluate domain w).1 ≤ cost w + (1 + k)
  unfolding eval_include
  eval_include-cost evaluate k hk [] w = omega arith
  eval_include-cost evaluate k hk (c ∷ domain) w =
      let (answer, w') = env.lookup_txt (c ∷ domain) w in
      omega (arith, h.txt (c ∷ domain) w, included_record-cost evaluate k hk (c ∷ domain) answer w')

  module _ (f : Text → State W Verdict) (k : ℕ)
      (hf : (arg : Text) (w : W) → cost (f arg w).1 ≤ cost w + k) (depth : ℕ)
      (domain peer_ip : Text) where
    run_mechanism-cost :
        (count : ℕ) (name arg : Text) (w : W)
        → count ≤ 10
        → cost (run_mechanism env f depth domain peer_ip count name arg w).1 ≤ cost w + k
    unfolding run_mechanism
    run_mechanism-cost count name arg w small = ground (
      arith,
      hf arg w,
      match_host-cost h arg domain peer_ip w,
      match_mx-cost h arg domain peer_ip w,
    )

    run_mechanism-full :
        (count : ℕ) (name arg : Text) (w : W)
        → 10 < count
        → cost (run_mechanism env f depth domain peer_ip count name arg w).1 ≤ cost w
    unfolding run_mechanism
    run_mechanism-full count name arg w small = ground arith

    run_mechanism-free :
        (count : ℕ) (name arg : Text) (w : W)
        → is_dns name ≡ false
        → cost (run_mechanism env f depth domain peer_ip count name arg w).1 ≤ cost w
    unfolding run_mechanism
    run_mechanism-free count name arg w small = ground arith

    -- what the mechanism costs is paid by the count that it raises
    run_mechanism-pays :
        (count : ℕ) (name arg : Text) (w : W)
        → let count' = if is_dns name then count + 1 else count in
          cost (run_mechanism env f depth domain peer_ip count' name arg w).1 + (10 - count') * k
          ≤ cost w + (10 - count) * k
    run_mechanism-pays count name arg w = elim (Bool-cases (is_dns name)) [
      | inr no_dns ↦ rw no_dns (omega (arith, run_mechanism-free count name arg w no_dns))
      | inl dns ↦ rw dns (elim (dec_le (count + 1) 10) [
        | yes small ↦
            omega (arith, run_mechanism-cost (count + 1) name arg w small, spend count k small)
        | no big ↦ omega (
          arith,
          run_mechanism-full (count + 1) name arg w (omega arith),
          spent count k (omega arith),
        )
      ])
    ]

    bare_step-Pays :
        (count q : ℕ) (bare : Text) (w : W)
        → Pays k count
            (cost w)
            (bare_step env f depth domain peer_ip count q bare w).0
            (cost (bare_step env f depth domain peer_ip count q bare w).1)
    unfolding bare_step
    bare_step-Pays count q bare w = elim (Bool-cases (is_modifier bare)) [
      | inl e ↦ rw e (omega arith)
      | inr e ↦ rw e (
          after_match-Pays k count (cost w) q _ _ _
            (run_mechanism-pays count (mechanism bare).0 (mechanism bare).1 w))
    ]

    term_step-Pays :
        (count : ℕ) (term : Text) (w : W)
        → Pays k count
            (cost w)
            (term_step env f depth domain peer_ip count term w).0
            (cost (term_step env f depth domain peer_ip count term w).1)
    unfolding term_step
    term_step-Pays count term w = elim (Bool-cases (env.expired w).0) [
      | inl late ↦ rw late (omega (arith, h.clock w))
      | inr e ↦ rw e (elim (Bool-cases (is_nil term)) [
        | inl e' ↦ rw e' (omega (arith, h.clock w))
        | inr e' ↦ rw e' (
            Pays-mono k count _ _ _ _ (h.clock w)
              (bare_step-Pays count (qualifier term).0 (qualifier term).1 (env.expired w).1))
      ])
    ]

    eval_terms-cost :
        (count : ℕ) (terms : List Text) (w : W)
        → cost (eval_terms env f depth domain peer_ip count terms w).1 ≤ cost w + (10 - count) * k
    unfolding eval_terms
    eval_terms-cost count [] w = omega arith
    eval_terms-cost count (term ∷ terms) w =
        let (step, w') = term_step env f depth domain peer_ip count term w in
        proceed-cost cost _ k (λ n u. eval_terms-cost n terms u) count (cost w) step w'
          (term_step-Pays count term w)

  -- Where a TXT lookup costs at most one and no other lookup costs anything, an evaluation that has
  -- counted no mechanism yet costs at most `budget fuel`, at whatever depth: ten includes for each
  -- record, and one TXT lookup with the evaluation of its record for each include.
  pub eval_spf-cost :
      (fuel : ℕ) (record_text domain peer_ip : Text) (depth : ℕ) (w : W)
      → cost (eval_spf env fuel record_text domain peer_ip 0 depth w).1 ≤ cost w + budget fuel
  unfolding eval_spf
  eval_spf-cost zero r d p depth w =
      eval_terms-cost (λ arg. pure permerror) 0 (λ arg u. omega arith) depth d p 0
        (tail_of (fields r)) w
  eval_spf-cost (suc fuel) r d p depth w =
      eval_terms-cost _ (1 + budget fuel)
        (eval_include-cost _ (budget fuel) (λ r' d' u. eval_spf-cost fuel r' d' p (depth + 1) u))
        depth d p 0 (tail_of (fields r)) w
