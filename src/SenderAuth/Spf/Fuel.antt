-- ===== src/SenderAuth/Spf/Fuel.antt =====
-- The fuel of `eval_spf` is the depth of includes that is left: more changes nothing.
use Prim.Native.Nat.add as Add
use native.Mathlib.Nat.{zero-add}
use mathlib.Core.Path.{fun_ext}
use elec_postal.Base.{ℕ, zero, suc, ◌+◌, ◌≤◌, ◌<◌, ◌≡◌, ◌∙◌, refl, ap, List, [], ◌∷◌, arith}
use elec_postal.Text.{Text, fields}
use elec_postal.SenderAuth.State.{Verdict, State, Env}
use elec_postal.SenderAuth.Spf.{
  Step, stop, next, tail_of, proceed, eval_include, run_mechanism, bare_step, term_step, eval_terms,
  eval_spf,
}

pub proceed-eq :
    {W : Type 0} (f g : ℕ → State W Verdict)
    → ((n : ℕ) (w : W) → f n w ≡ g n w)
    → (step : Step) (w : W) → proceed f step w ≡ proceed g step w
proceed-eq f g h (stop v) w = refl
proceed-eq f g h (next n) w = h n w

module _ {W : Type 0} (env : Env W) where
  module _ (f g : Text → State W Verdict) (depth : ℕ) (domain peer_ip : Text)
      (deep : 10 < depth + 1) where
    -- beyond the limit no include is evaluated
    run_mechanism-deep :
        (count : ℕ) (name arg : Text)
        → run_mechanism env f depth domain peer_ip count name arg
          ≡ run_mechanism env g depth domain peer_ip count name arg
    unfolding run_mechanism
    run_mechanism-deep count name arg = ground arith

    term_step-deep :
        (count : ℕ) (term : Text) (w : W)
        → term_step env f depth domain peer_ip count term w
          ≡ term_step env g depth domain peer_ip count term w
    unfolding term_step bare_step
    term_step-deep count term w = simp run_mechanism-deep

    eval_terms-deep :
        (count : ℕ) (terms : List Text) (w : W)
        → eval_terms env f depth domain peer_ip count terms w
          ≡ eval_terms env g depth domain peer_ip count terms w
    unfolding eval_terms
    eval_terms-deep count [] w = refl
    eval_terms-deep count (term ∷ terms) w = rw (term_step-deep count term w) (
        let (step, w') = term_step env g depth domain peer_ip count term w in
        proceed-eq (λ n v. eval_terms env f depth domain peer_ip n terms v)
          (λ n v. eval_terms env g depth domain peer_ip n terms v)
          (λ n v. eval_terms-deep n terms v) step w')

  -- One more unit of fuel changes nothing where the fuel reaches the depth limit.
  pub eval_spf-suc :
      (fuel : ℕ) (record_text domain peer_ip : Text) (count depth : ℕ)
      → 10 ≤ depth + fuel
      → (w : W)
      → eval_spf env (suc fuel) record_text domain peer_ip count depth w
        ≡ eval_spf env fuel record_text domain peer_ip count depth w
  unfolding eval_spf
  eval_spf-suc zero r d p c depth h w =
      eval_terms-deep _ _ depth d p (omega arith) c (tail_of (fields r)) w
  eval_spf-suc (suc fuel) r d p c depth h w =
      ap (λ ev. eval_terms env (eval_include env ev) depth d p c (tail_of (fields r)) w)
        (fun_ext λ r'.
          fun_ext λ d'. fun_ext λ w'. eval_spf-suc fuel r' d' p 0 (depth + 1) (omega arith) w')

  -- The fuel that `verify_spf` gives is enough: with `fuel` for the includes that the depth limit
  -- leaves, any more fuel evaluates every record to the same result in the same surroundings.
  pub eval_spf-fuel :
      (extra fuel : ℕ) (record_text domain peer_ip : Text) (count depth : ℕ)
      → 10 ≤ depth + fuel
      → (w : W)
      → eval_spf env (extra + fuel) record_text domain peer_ip count depth w
        ≡ eval_spf env fuel record_text domain peer_ip count depth w
  eval_spf-fuel zero fuel r d p c depth h w = rw zero-add
  eval_spf-fuel (suc extra) fuel r d p c depth h w = rw (Add.suc extra fuel) (
      eval_spf-suc (extra + fuel) r d p c depth (omega arith) w
      ∙ eval_spf-fuel extra fuel r d p c depth h w)
