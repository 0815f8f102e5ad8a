-- ===== src/Smtp/Delivery/Beside.antt =====
-- Delivery does not reach for the relay: beside a list of relayed messages, it leaves the list.
use elec_postal.Base.{
  ◌≡◌, inl, inr, refl, ◌∙◌, Bool, true, false, Option, none, some, List, [], ◌∷◌, arith, Bool-cases,
}
use elec_postal.Text.{Text}
use elec_postal.SenderAuth.State.{State}
use elec_postal.Smtp.Delivery.{
  Recipient, Reference, Job, Backend, skipped, finish, stage_for, receive_staged, deliver_one,
  deliver_loop, deliver_job,
}
use elec_postal.Smtp.Service.{Outbound}

-- a computation next to a list of messages that it leaves
abbrev pub beside : {W X : Type 0} → State W X → State (W × List Outbound) X
beside m s = let (x, w') = m s.0 in (x, (w', s.1))

abbrev pub beside_delivery : {C A W : Type 0} → Backend C A W → Backend C A (W × List Outbound)
beside_delivery b = record {
  stages = b.stages;
  deletes = b.deletes;
  stage = λ m as'. beside (b.stage m as');
  delete_attachment = λ key. beside (b.delete_attachment key);
  receive = λ d. beside (b.receive d);
}

module _ {C A W : Type 0} (b : Backend C A W) (job : Job C A) where
  receive_staged-log :
      (mailbox : Text) (staged : Option (List Reference × List A)) (s : W × List Outbound)
      → (receive_staged (beside_delivery b) job mailbox staged s).1.1 ≡ s.1
  unfolding receive_staged
  receive_staged-log mailbox none s = refl
  receive_staged-log mailbox (some (refs, as')) s = refl

  stage_for-log :
      (mailbox : Text) (s : W × List Outbound)
      → (stage_for (beside_delivery b) job mailbox s).1.1 ≡ s.1
  unfolding stage_for
  stage_for-log mailbox s = ground arith

  deliver_one-log :
      (mailbox : Text) (s : W × List Outbound)
      → (deliver_one (beside_delivery b) job mailbox s).1.1 ≡ s.1
  unfolding deliver_one
  deliver_one-log mailbox s =
      receive_staged-log mailbox (stage_for (beside_delivery b) job mailbox s).0
        (stage_for (beside_delivery b) job mailbox s).1
      ∙ stage_for-log mailbox s

  finish-log :
      (rest : W × List Outbound → Bool × (W × List Outbound)) (r : Bool × (W × List Outbound))
      → ((s : W × List Outbound) → (rest s).1.1 ≡ s.1)
      → (finish rest r).1.1 ≡ r.1.1
  finish-log rest (true, s) h = h s
  finish-log rest (false, s) h = refl

  deliver_loop-log :
      (seen : List Text) (rs : List Recipient) (s : W × List Outbound)
      → (deliver_loop (beside_delivery b) job seen rs s).1.1 ≡ s.1
  unfolding deliver_loop
  deliver_loop-log seen [] s = refl
  deliver_loop-log seen (r ∷ rs) s = elim (Bool-cases (skipped seen r)) [
    | inl e ↦ rw (e, deliver_loop) (deliver_loop-log seen rs s)
    | inr e ↦
        rw (e, deliver_loop)
          (finish-log (λ v. deliver_loop (beside_delivery b) job (r.mailbox_id ∷ seen) rs v)
              (deliver_one (beside_delivery b) job r.mailbox_id s)
              (λ v. deliver_loop-log (r.mailbox_id ∷ seen) rs v)
            ∙ deliver_one-log r.mailbox_id s)
  ]

  pub deliver_job-log : (s : W × List Outbound) → (deliver_job (beside_delivery b) job s).1.1 ≡ s.1
  unfolding deliver_job
  deliver_job-log s = deliver_loop-log [] job.recipients s
