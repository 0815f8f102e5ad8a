-- ===== src/Smtp/Queue/Acknowledge.antt =====
-- Which messages of the stream `handle` of internal/smtp/queue.go acknowledges.
use elec_postal.Base.{
  ◌≡◌, ◌⊎◌, inl, inr, refl, ap, Option, none, some, List, [], arith, Bool-cases, All,
}
use elec_postal.Text.{Text}
use elec_postal.Smtp.Delivery.{Recipient, Job, Received, Backend, deliver_job}
use elec_postal.Smtp.Delivery.Copies.{HasCopy}
use elec_postal.Smtp.Delivery.Once.{recorded, deliver_job-once}
use elec_postal.Smtp.Queue.{ack, Broker, settle, job_of, handle}

-- the broker, with states that hold the stored copies as well
abbrev pub same_broker : {C A W : Type 0} → Broker C A W → Broker C A (W × List (Received C A))
same_broker broker = record {
  marshal = broker.marshal;
  unmarshal = broker.unmarshal;
  decode_legacy = broker.decode_legacy;
  publish = λ job payload s. let (ok, w') = broker.publish job payload s.0 in (ok, (w', s.1));
}

module _ {C A W : Type 0} (b : Backend C A W) (broker : Broker C A W) where
  -- Every local mailbox of a job has a copy.
  abbrev pub Delivered : Job C A → List (Received C A) → Type 0
  Delivered job copies =
      All (λ (r : Recipient). (r.mailbox_id ≡ []) ⊎ HasCopy r.mailbox_id copies) job.recipients

  settle-ack :
      (job : Option (Job C A)) (w : W)
      → let r = settle (recorded b) (same_broker broker) job (w, []) in
        r.0 ≡ ack → (found : Job C A) × (job ≡ some found) × Delivered found r.1.1
  unfolding settle
  settle-ack none w h = cc h
  settle-ack (some job) w h =
      let (ok, s) = deliver_job (recorded b) job (w, []) in
      elim (Bool-cases (deliver_job (recorded b) job (w, [])).0) [
        | inl e ↦ let (right, fresh, served) = deliver_job-once b job w in (job, refl, served e)
        | inr e ↦ absurd (ground (arith, e, h))
      ]

  job_of-cases :
      (job : Option (Job C A)) (legacy : Option (Option (Job C A))) (found : Job C A)
      → job_of (recorded b) (same_broker broker) job legacy ≡ some found
      → (legacy ≡ some (some found)) ⊎ (job ≡ some found)
  unfolding job_of
  job_of-cases job none found h = inr h
  job_of-cases job (some none) found h = inr h
  job_of-cases job (some (some l)) found h = inl (ap some h)

  -- Whatever the mail service answers, `handle` acknowledges a message only if one of the two
  -- decoders takes it for a job and every local mailbox of that job has its copy.
  pub handle-ack :
      (message : Text) (w : W)
      → let r = handle (recorded b) (same_broker broker) message (w, []) in
        r.0 ≡ ack
        → (job : Job C A) × ((broker.decode_legacy message ≡ some (some job))
            ⊎ (broker.unmarshal message ≡ some job))
          × Delivered job r.1.1
  unfolding handle
  handle-ack message w h =
      let (job, e, delivered) =
        settle-ack
          (job_of (recorded b) (same_broker broker) (broker.unmarshal message)
            (broker.decode_legacy message))
          w h in
      (job, job_of-cases (broker.unmarshal message) (broker.decode_legacy message) job e, delivered)
