-- ===== src/Smtp/Queue/Cleanup.antt =====
-- What `Enqueue` of internal/smtp/queue.go leaves behind when it fails.
use mathlib.Core.List.{append-nil, append_assoc}
use mathlib.Core.Path.{subst}
use elec_postal.Base.{
  ◌≡◌, ◌⊎◌, inl, inr, refl, sym, ap, ◌∙◌, Bool, true, false, Option, none, some, List, [], ◌∷◌,
  ◌++◌, Bool-cases, All, All-append, if◌then◌else◌,
}
use elec_postal.Text.{Text}
use elec_postal.SenderAuth.State.{State, pure}
use elec_postal.Smtp.Delivery.{
  Recipient, Reference, Job, Backend, no_items, delete_staged_attachments,
}
use elec_postal.Smtp.Delivery.Deletion.{
  Traced, traced, returned, Gone, AllGone, delete_staged-AllGone,
}
use elec_postal.Smtp.Queue.{
  Broker, staged_before, give_up, after_publish, publish_payload, stage_next, stage_loop,
  after_staging, enqueue,
}

abbrev pub traced_broker : {C A W : Type 0} → Broker C A W → Broker C A (Traced W)
traced_broker broker = record {
  marshal = broker.marshal;
  unmarshal = broker.unmarshal;
  decode_legacy = broker.decode_legacy;
  publish = λ job payload s. let (ok, w') = broker.publish job payload s.0 in (ok, (w', s.1));
}

-- the keys in a map of references
pub all_keys : List (Text × List Reference) → List Reference
all_keys [] = []
all_keys ((mailbox, refs) ∷ l) = refs ++ all_keys l

all_keys-append :
    (l : List (Text × List Reference)) (mailbox : Text) (refs : List Reference)
    → all_keys (l ++ (mailbox, refs) ∷ []) ≡ all_keys l ++ refs
unfolding all_keys
all_keys-append [] mailbox refs = append-nil refs
all_keys-append ((m, r) ∷ l) mailbox refs =
    ap (λ k. r ++ k) (all_keys-append l mailbox refs) ∙ sym (append_assoc r (all_keys l) refs)

All-Gone-all_keys :
    (deleted : List Text) (l : List (Text × List Reference))
    → AllGone deleted l
    → All (Gone deleted) (all_keys l)
unfolding all_keys
All-Gone-all_keys deleted [] h = tt
All-Gone-all_keys deleted ((mailbox, refs) ∷ l) h =
    All-append (Gone deleted) refs (all_keys l) h.0 (All-Gone-all_keys deleted l h.1)

module _ {C A W : Type 0} (b : Backend C A W) (broker : Broker C A W) (can : b.deletes ≡ true) where
  -- After an error, whatever was staged is gone.
  abbrev Clean : Bool × Traced W → Type 0
  Clean r = r.0 ≡ false → All (Gone r.1.1.1) r.1.1.0

  -- What was staged is in the map, or nothing was.
  abbrev Listed : List (Text × List Reference) → Traced W → Type 0
  Listed refs s = (s.1.0 ≡ all_keys refs) ⊎ (s.1.0 ≡ [])

  give_up-Clean :
      (refs : List (Text × List Reference)) (s : Traced W)
      → Listed refs s
      → Clean (give_up (traced b) (traced_broker broker) refs s)
  unfolding give_up
  give_up-Clean refs s listed e =
      let (gone, same) = delete_staged-AllGone b refs s can in
      let deleted = (delete_staged_attachments (traced b) refs s).1.1 in
      elim listed [
        | inl h ↦ subst (All (Gone deleted)) (sym (same ∙ h)) (All-Gone-all_keys deleted refs gone)
        | inr h ↦ subst (All (Gone deleted)) (sym (same ∙ h)) tt
      ]

  after_publish-Clean :
      (refs : List (Text × List Reference)) (ok : Bool) (s : Traced W)
      → Listed refs s
      → Clean (after_publish (traced b) (traced_broker broker) refs ok s)
  unfolding after_publish
  after_publish-Clean refs true s listed e = cc e
  after_publish-Clean refs false s listed e = give_up-Clean refs s listed e

  publish_payload-Clean :
      (job : Job C A) (payload : Option Text) (s : Traced W)
      → Listed job.references s
      → Clean (publish_payload (traced b) (traced_broker broker) job payload s)
  unfolding publish_payload
  publish_payload-Clean job none s listed = give_up-Clean job.references s listed
  publish_payload-Clean job (some payload) s listed =
      after_publish-Clean job.references (broker.publish job payload s.0).0 _ listed

  stage_next-Listed :
      (transient : List A) (rs : List Recipient) (mailbox : Text)
      (refs : List (Text × List Reference)) (s : Traced W) (staged : Option (List Reference))
      (w : W)
      → s.1.0 ≡ all_keys refs
      → ((l : List (Text × List Reference)) (v : Traced W)
          → v.1.0 ≡ all_keys l
          → let r = stage_loop (traced b) (traced_broker broker) transient rs l v in
            r.1.1.0 ≡ all_keys r.0.1)
      → let r =
          stage_next
            (traced b)
            (traced_broker broker)
            (λ l v. stage_loop (traced b) (traced_broker broker) transient rs l v)
            mailbox
            refs
            staged
            (w, (s.1.0 ++ returned staged, s.1.1)) in
        r.1.1.0 ≡ all_keys r.0.1
  unfolding stage_next
  stage_next-Listed transient rs mailbox refs s none w h rest = append-nil s.1.0 ∙ h
  stage_next-Listed transient rs mailbox refs s (some staged) w h rest =
      rest (refs ++ (mailbox, staged) ∷ []) (w, (s.1.0 ++ staged, s.1.1))
        (ap (λ k. k ++ staged) h ∙ sym (all_keys-append refs mailbox staged))

  stage_loop-Listed :
      (transient : List A) (rs : List Recipient) (refs : List (Text × List Reference))
      (s : Traced W)
      → s.1.0 ≡ all_keys refs
      → let r = stage_loop (traced b) (traced_broker broker) transient rs refs s in
        r.1.1.0 ≡ all_keys r.0.1
  unfolding stage_loop all_keys
  stage_loop-Listed transient [] refs s h = h
  stage_loop-Listed transient (r ∷ rs) refs s h = elim (Bool-cases (staged_before refs r)) [
    | inl e ↦ rw (e, stage_loop) (stage_loop-Listed transient rs refs s h)
    | inr e ↦
        rw (e, stage_loop)
          (stage_next-Listed transient rs r.mailbox_id refs s (b.stage r.mailbox_id transient s.0).0
            (b.stage r.mailbox_id transient s.0).1 h
            (λ l v q. stage_loop-Listed transient rs l v q))
  ]

  after_staging-Clean :
      (job : Job C A) (ok : Bool) (refs : List (Text × List Reference)) (s : Traced W)
      → s.1.0 ≡ all_keys refs
      → Clean (after_staging (traced b) (traced_broker broker) job (ok, refs) s)
  unfolding after_staging
  after_staging-Clean job false refs s h = give_up-Clean refs s (inl h)
  after_staging-Clean job true refs s h = publish_payload-Clean _ _ s (inl h)

  if-Clean :
      (c : Bool) (m : State (Traced W) Bool) (s : Traced W)
      → s.1.0 ≡ []
      → Clean (m s)
      → Clean ((if c then m else pure false) s)
  if-Clean true m s h clean e = clean e
  if-Clean false m s h clean e = subst (All (Gone s.1.1)) (sym h) tt

  -- Where the backend can delete attachments, an `Enqueue` that returns an error has deleted every
  -- attachment that it staged, whatever the mail service, the encoder and the stream answer.
  pub enqueue-Clean :
      (job : Job C A) (w : W)
      → let r = enqueue (traced b) (traced_broker broker) job (w, ([], [])) in
        r.0 ≡ false → All (Gone r.1.1.1) r.1.1.0
  unfolding enqueue all_keys
  enqueue-Clean job w = elim (Bool-cases (no_items job.transient)) [
    | inl e ↦
        rw (e, enqueue) (publish_payload-Clean job (broker.marshal job) (w, ([], [])) (inr refl))
    | inr e ↦
        rw (e, enqueue)
          (if-Clean b.stages _ (w, ([], [])) refl
            (after_staging-Clean job
              (stage_loop (traced b) (traced_broker broker) job.transient job.recipients []
                (w, ([], []))).0.0
              _ _ (stage_loop-Listed job.transient job.recipients [] (w, ([], [])) refl)))
  ]
