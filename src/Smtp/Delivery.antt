-- ===== src/Smtp/Delivery.antt =====
-- `deliverJob` and `deleteStagedAttachments` of internal/smtp/queue.go. `C` stands for the fields of
-- a job that every copy carries unchanged (sender, subject, body, header lists, authentication and
-- times), `A` for an attachment with a handle on its content, and `W` for the surroundings that the
-- service changes, the positions of readers among them.
mod Addresses
pub mod Beside
pub mod Copies
pub mod Deletion
pub mod Once
use elec_postal.Base.{
  Bool, true, false, not, ◌&&◌, ◌||◌, Option, none, some, List, [], ◌∷◌, if◌then◌else◌,
}
use elec_postal.Text.{Text, codes, text_eq, is_nil, to_lower, trim_space, cut_last, member}
use elec_postal.SenderAuth.State.{State, ◌>>=◌, pure}

pub record Recipient : Type 0 where
  pub address : Text
  -- empty where the address is no local mailbox
  pub mailbox_id : Text

-- A reference to a staged attachment is its storage key.
abbrev pub Reference : Type 0
Reference = Text

pub record Job (C A : Type 0) : Type 0 where
  pub content : C
  pub recipients : List Recipient
  pub transient : List A
  -- the map from mailboxes to what is staged for them
  pub references : List (Text × List Reference)

-- `service.ReceiveEmailInput`
pub record Received (C A : Type 0) : Type 0 where
  pub mailbox_id : Text
  pub content : C
  pub attachments : List A
  pub staged : List Reference
  pub delivered_to : List Text
  pub dmarc_intake : Bool

-- The mail service, as far as delivery calls it; `false` and `none` are errors.
pub record Backend (C A W : Type 0) : Type 0 where
  -- whether the service is an `attachmentStager`
  pub stages : Bool
  -- whether it has a method `DeleteAttachment`
  pub deletes : Bool
  pub stage : Text → List A → State W (Option (List Reference))
  pub delete_attachment : Reference → State W (Unit {0})
  pub receive : Received C A → State W Bool

abbrev local_is_dmarc : Option (Text × Text) → Bool
local_is_dmarc none = false
local_is_dmarc (some (local, domain)) = text_eq local (codes "dmarc")

unfoldable pub is_dmarc_recipient : Text → Bool
is_dmarc_recipient address = local_is_dmarc (cut_last b'@' (to_lower (trim_space address)))

-- the addresses of the job that belong to a mailbox
pub delivered_to : Text → List Recipient → List Text
delivered_to mailbox [] = []
delivered_to mailbox (r ∷ rs) =
    let rest = delivered_to mailbox rs in
    if text_eq r.mailbox_id mailbox then r.address ∷ rest else rest

-- whether one of them is a DMARC intake address
pub dmarc_intake : Text → List Recipient → Bool
dmarc_intake mailbox [] = false
dmarc_intake mailbox (r ∷ rs) =
    (text_eq r.mailbox_id mailbox && is_dmarc_recipient r.address) || dmarc_intake mailbox rs

pub references_of : Text → List (Text × List Reference) → List Reference
references_of mailbox [] = []
references_of mailbox ((m, refs) ∷ l) = if text_eq m mailbox then refs else references_of mailbox l

abbrev pub no_items {ℓ} : {A : Type ℓ} → List A → Bool
no_items [] = true
no_items (x ∷ xs) = false

-- The mailbox is absent, or has its copy.
abbrev pub skipped : List Text → Recipient → Bool
skipped seen r = is_nil r.mailbox_id || member r.mailbox_id seen

abbrev pub finish : {W : Type 0} → (W → Bool × W) → Bool × W → Bool × W
finish rest (true, w) = rest w
finish rest (false, w) = (false, w)

module _ {C A W : Type 0} (b : Backend C A W) where
  staged_or_error : Option (List Reference) → Option (List Reference × List A)
  staged_or_error none = none
  staged_or_error (some refs) = some (refs, [])

  -- The references and the attachments that go with the copy of a mailbox.
  stage_for : Job C A → Text → State W (Option (List Reference × List A))
  unfolding staged_or_error references_of
  stage_for job mailbox =
      let refs = references_of mailbox job.references in
      if no_items refs && not (no_items job.transient)
      then (if b.stages
          then (do staged ← b.stage mailbox job.transient; pure (staged_or_error staged))
          else pure (some (refs, job.transient)))
      else pure (some (refs, []))

  received : Job C A → Text → List Reference → List A → Received C A
  received job mailbox refs attachments = record {
    mailbox_id = mailbox;
    content = job.content;
    attachments = attachments;
    staged = refs;
    delivered_to = delivered_to mailbox job.recipients;
    dmarc_intake = dmarc_intake mailbox job.recipients;
  }

  receive_staged : Job C A → Text → Option (List Reference × List A) → State W Bool
  unfolding received
  receive_staged job mailbox none = pure false
  receive_staged job mailbox (some (refs, attachments)) =
      b.receive (received job mailbox refs attachments)

  -- the copy of one mailbox
  deliver_one : Job C A → Text → State W Bool
  unfolding stage_for receive_staged
  deliver_one job mailbox = do staged ← stage_for job mailbox; receive_staged job mailbox staged

  pub deliver_loop : Job C A → List Text → List Recipient → State W Bool
  unfolding deliver_one
  deliver_loop job seen [] w = (true, w)
  deliver_loop job seen (r ∷ rs) w = elim (skipped seen r) [
    | true ↦ deliver_loop job seen rs w
    | false ↦
        finish (λ v. deliver_loop job (r.mailbox_id ∷ seen) rs v) (deliver_one job r.mailbox_id w)
  ]

  unfoldable pub deliver_job : Job C A → State W Bool
  unfolding deliver_loop
  deliver_job job = deliver_loop job [] job.recipients

  -- `deleteStagedAttachments`: every key that is not empty, once
  delete_keys : List Text → List Reference → W → List Text × W
  delete_keys seen [] w = (seen, w)
  delete_keys seen (key ∷ refs) w =
      let id = trim_space key in
      elim (is_nil id || member id seen) [
        | true ↦ delete_keys seen refs w
        | false ↦ let (done, w') = b.delete_attachment id w in delete_keys (id ∷ seen) refs w'
      ]

  delete_maps : List Text → List (Text × List Reference) → W → W
  delete_maps seen [] w = w
  delete_maps seen ((mailbox, refs) ∷ l) w =
      let (seen', w') = delete_keys seen refs w in delete_maps seen' l w'

  unfoldable pub delete_staged_attachments : List (Text × List Reference) → W → W
  unfolding delete_maps delete_keys
  delete_staged_attachments refs w = if b.deletes then delete_maps [] refs w else w
