-- ===== src/SenderAuth/Spf/All.antt =====
-- What the mechanism `all` does to a record.
use elec_postal.Base.{
  ap, ℕ, ◌+◌, ◌≡◌, ◌≢◌, refl, true, false, List, [], ◌∷◌, ◌++◌, All, arith, ◌⊎◌, if◌then◌else◌,
}
use elec_postal.Text.{Text, codes, text_eq, has_prefix, cut}
use elec_postal.SenderAuth.State.{Verdict, neutral, temperror, permerror, State, Env}
use elec_postal.SenderAuth.Spf.Terms.{Match, matched, level, qualifier, qualified, mechanism}
use elec_postal.SenderAuth.Spf.Terms.Laws.{match_host-level, match_mx-level}
use elec_postal.SenderAuth.Spf.Fuel.{proceed-eq}
use elec_postal.SenderAuth.Spf.{
  Step, stop, next, proceed, is_dns, run_mechanism, bare_step, term_step, eval_terms, included,
  after_match,
}

-- The term is `all`, behind a qualifier or none.
abbrev pub IsAll : Text → Type 0
IsAll t = (qualifier t).1 ≡ codes "all"

-- The term is qualified by `?`.
abbrev pub IsOpen : Text → Type 0
IsOpen t = (qualifier t).0 ≡ b'?'

included-level : (v u : Verdict) → included v ≡ level u → (u ≡ temperror) ⊎ (u ≡ permerror)
included-level v u h = ground arith

proceed-ne-neutral :
    {W : Type 0} (loop : ℕ → State W Verdict)
    → ((n : ℕ) (w : W) → (loop n w).0 ≢ neutral)
    → (step : Step) (w : W) → step ≢ stop neutral
    → (proceed loop step w).0 ≢ neutral
proceed-ne-neutral loop h (stop v) w ne e = ne (ap stop e)
proceed-ne-neutral loop h (next n) w ne e = h n w e

after_match-neutral :
    (q count : ℕ) (m : Match)
    → (m ≡ level neutral → (neutral ≡ temperror) ⊎ (neutral ≡ permerror))
    → after_match q count m ≡ stop neutral
    → q ≡ b'?'
after_match-neutral q count (matched true) levels h = ground arith
after_match-neutral q count (matched false) levels h = cc
after_match-neutral q count (level v) levels h = ground (arith, levels)

module _ {W : Type 0} (env : Env W) (f : Text → State W Verdict) (depth : ℕ)
    (domain peer_ip : Text) where
  bare_step-all :
      (count q : ℕ) (w : W)
      → bare_step env f depth domain peer_ip count q (codes "all") w ≡ (stop (qualified q), w)
  unfolding bare_step run_mechanism mechanism text_eq has_prefix cut
  bare_step-all count q w = refl

  -- at `all` the loop ends
  term_step-all :
      (count : ℕ) (t : Text) (w : W)
      → IsAll t
      → (v : Verdict) × (term_step env f depth domain peer_ip count t w
          ≡ (stop v, (env.expired w).1))
  unfolding term_step
  term_step-all count [] w h = absurd (unfold qualifier in cc h)
  term_step-all count (c ∷ t) w h = (
    (if (env.expired w).0 then temperror else qualified (qualifier (c ∷ t)).0),
    rw h (ground (arith, bare_step-all count (qualifier (c ∷ t)).0 (env.expired w).1)),
  )

  run_mechanism-level :
      (count : ℕ) (name arg : Text) (w : W) (v : Verdict)
      → (run_mechanism env f depth domain peer_ip count name arg w).0 ≡ level v
      → (v ≡ temperror) ⊎ (v ≡ permerror)
  unfolding run_mechanism
  run_mechanism-level count name arg w v h = ground (
    arith,
    included-level (f arg w).0 v,
    match_host-level env arg domain peer_ip w v,
    match_mx-level env arg domain peer_ip w v,
  )

  bare_step-neutral :
      (count q : ℕ) (bare : Text) (w : W)
      → (bare_step env f depth domain peer_ip count q bare w).0 ≡ stop neutral
      → q ≡ b'?'
  unfolding bare_step
  bare_step-neutral count q bare w h =
      let parts = mechanism bare in
      let count' = if is_dns parts.0 then count + 1 else count in
      ground (
        arith,
        after_match-neutral q count'
            (run_mechanism env f depth domain peer_ip count' parts.0 parts.1 w).0
            (run_mechanism-level count' parts.0 parts.1 w neutral),
      )

  -- only `?` gives neutral at a term
  term_step-neutral :
      (count : ℕ) (t : Text) (w : W)
      → (term_step env f depth domain peer_ip count t w).0 ≡ stop neutral
      → IsOpen t
  unfolding term_step
  term_step-neutral count t w h =
      ground (arith, bare_step-neutral count (qualifier t).0 (qualifier t).1 (env.expired w).1)

  -- The terms behind the first `all` are never read: whatever they are, the evaluation ends in the
  -- same result and the same surroundings.
  pub eval_terms-all :
      (count : ℕ) (before after : List Text) (t : Text) (w : W)
      → IsAll t
      → eval_terms env f depth domain peer_ip count (before ++ t ∷ after) w
        ≡ eval_terms env f depth domain peer_ip count (before ++ t ∷ []) w
  unfolding eval_terms
  eval_terms-all count [] after t w h = let (v, e) = term_step-all count t w h in rw e
  eval_terms-all count (s ∷ before) after t w h =
      let (step, w') = term_step env f depth domain peer_ip count s w in
      proceed-eq _ _ (λ n u. eval_terms-all n before after t u h) step w'

  -- A record in which some term is `all` and no term is qualified by `?` never evaluates to
  -- neutral, whatever the lookups answer.
  pub eval_terms-ne-neutral :
      (count : ℕ) (before after : List Text) (t : Text) (w : W)
      → IsAll t
      → ¬ (IsOpen t)
      → All (λ s. ¬ (IsOpen s)) before
      → (eval_terms env f depth domain peer_ip count (before ++ t ∷ after) w).0 ≢ neutral
  unfolding eval_terms
  eval_terms-ne-neutral count [] after t w h o os e =
      let (v, p) = term_step-all count t w h in
      o (term_step-neutral count t w (cc (p, (rw p at e))))
  eval_terms-ne-neutral count (s ∷ before) after t w h o os e =
      let (step, w') = term_step env f depth domain peer_ip count s w in
      proceed-ne-neutral _ (λ n u. eval_terms-ne-neutral n before after t u h o os.1) step w'
        (λ p. os.0 (term_step-neutral count s w p)) e
