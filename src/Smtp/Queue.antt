-- ===== src/Smtp/Queue.antt =====
-- `Enqueue` and `handle` of the queue in internal/smtp/queue.go. JetStream, the JSON of a job and
-- the decoding of jobs of an older format are fields of the broker.
pub mod Acknowledge
pub mod Cleanup
use elec_postal.Base.{
  Bool, true, false, ◌||◌, Option, none, some, List, [], ◌∷◌, ◌++◌, if◌then◌else◌,
}
use elec_postal.Text.{Text, text_eq, is_nil}
use elec_postal.SenderAuth.State.{State, ◌>>=◌, pure}
use elec_postal.Smtp.Delivery.{
  Recipient, Reference, Job, Backend, no_items, deliver_job, delete_staged_attachments,
}

-- What a message of the stream is answered with.
pub data Settlement : Type 0 where
  ack nak term : Settlement

pub record Broker (C A W : Type 0) : Type 0 where
  -- `json.Marshal` of a job; attachments are not part of it
  pub marshal : Job C A → Option Text
  pub unmarshal : Text → Option (Job C A)
  -- `decodeLegacyDeliveryJob`: none is an error, and `some none` says that it is no such job
  pub decode_legacy : Text → Option (Option (Job C A))
  -- whether the stream acknowledges a message, under the identifier of its job
  pub publish : Job C A → Text → State W Bool

abbrev pub references_mailbox : Text → List (Text × List Reference) → Bool
references_mailbox mailbox [] = false
references_mailbox mailbox ((m, refs) ∷ l) = text_eq mailbox m || references_mailbox mailbox l

-- The mailbox is absent, or its attachments are staged.
abbrev pub staged_before : List (Text × List Reference) → Recipient → Bool
staged_before refs r = is_nil r.mailbox_id || references_mailbox r.mailbox_id refs

module _ {C A W : Type 0} (b : Backend C A W) (broker : Broker C A W) where
  -- an error behind the staging: what is staged is deleted
  give_up : List (Text × List Reference) → State W Bool
  give_up refs w = (false, delete_staged_attachments b refs w)

  after_publish : List (Text × List Reference) → Bool → State W Bool
  unfolding give_up
  after_publish refs true w = (true, w)
  after_publish refs false w = give_up refs w

  publish_payload : Job C A → Option Text → State W Bool
  unfolding after_publish give_up
  publish_payload job none = give_up job.references
  publish_payload job (some payload) = do
    ok ← broker.publish job payload
    after_publish job.references ok

  -- The loop over recipients goes on with what staging returned, or ends.
  stage_next :
      (List (Text × List Reference) → State W (Bool × List (Text × List Reference)))
      → Text
      → List (Text × List Reference)
      → Option (List Reference)
      → State W (Bool × List (Text × List Reference))
  stage_next rest mailbox refs none w = ((false, refs), w)
  stage_next rest mailbox refs (some staged) w = rest (refs ++ (mailbox, staged) ∷ []) w

  -- The second component is `job.AttachmentReferences`.
  stage_loop :
      List A
      → List Recipient
      → List (Text × List Reference)
      → State W (Bool × List (Text × List Reference))
  unfolding stage_next
  stage_loop transient [] refs w = ((true, refs), w)
  stage_loop transient (r ∷ rs) refs w = elim (staged_before refs r) [
    | true ↦ stage_loop transient rs refs w
    | false ↦
        let (staged, w') = b.stage r.mailbox_id transient w in
        stage_next (λ l v. stage_loop transient rs l v) r.mailbox_id refs staged w'
  ]

  after_staging : Job C A → Bool × List (Text × List Reference) → State W Bool
  unfolding publish_payload give_up
  after_staging job (false, refs) w = give_up refs w
  after_staging job (true, refs) w =
      let staged_job = record job { references = refs; transient = [] } in
      publish_payload staged_job (broker.marshal staged_job) w

  unfoldable pub enqueue : Job C A → State W Bool
  unfolding publish_payload stage_loop after_staging
  enqueue job =
      if no_items job.transient
      then publish_payload job (broker.marshal job)
      else (if b.stages
          then (do staged ← stage_loop job.transient job.recipients []; after_staging job staged)
          else pure false)

  -- the job of a message, from both decoders
  job_of : Option (Job C A) → Option (Option (Job C A)) → Option (Job C A)
  job_of job (some (some legacy)) = some legacy
  job_of job (some none) = job
  job_of job none = job

  abbrev settled : Bool → Settlement
  settled true = Settlement.ack
  settled false = Settlement.nak

  settle : Option (Job C A) → State W Settlement
  settle none = pure Settlement.term
  settle (some job) = do ok ← deliver_job b job; pure (settled ok)

  unfoldable pub handle : Text → State W Settlement
  unfolding settle job_of
  handle message = settle (job_of (broker.unmarshal message) (broker.decode_legacy message))
