-- ===== src/Smtp/Submission.antt =====
-- Submission from an authenticated mailbox in internal/smtp/server.go (`submit`,
-- `classifyRecipient`, `normalizeMessageID`, `submissionError`), with `newDeliveryJob` of queue.go.
pub mod Recipients
pub mod Relay
use elec_postal.Base.{
  ℕ, Bool, true, false, not, ◌&&◌, ◌||◌, Option, none, some, List, [], ◌∷◌, if◌then◌else◌, ◌==◌,
}
use elec_postal.Text.{
  Text, codes, text_eq, is_nil, to_lower, trim_space, trim_left, trim_right, join,
}
use elec_postal.SenderAuth.State.{State, ◌>>=◌, pure}
use elec_postal.Smtp.Delivery.{Recipient, Reference, Job, deliver_job, no_items}
use elec_postal.Smtp.Service.{Parsed, Content, Outbound, Error, Failure, Service}

unfoldable pub submission_error : Failure → Error
submission_error Failure.relay_unavailable =
    Error.smtp 554 (codes "5.3.0") (codes "Outbound relay is not configured")
submission_error Failure.limit_exceeded =
    Error.smtp 452 (codes "4.3.2") (codes "Outbound send limit exceeded")
submission_error Failure.source_required =
    Error.smtp 554 (codes "5.6.0") (codes "Message attachments are not supported")
submission_error Failure.other = Error.smtp 554 (codes "5.3.0") (codes "Message delivery failed")

-- whether a header list names an address
unfoldable pub named : Text → List (Text × Text) → Bool
named address [] = false
named address ((a, name) ∷ l) = text_eq (to_lower (trim_space a)) address || named address l

pub data Section : Type 0 where
  to_list cc_list bcc_list : Section

unfoldable pub classify_recipient : Text → List (Text × Text) → List (Text × Text) → Section
classify_recipient given to cc =
    let address = to_lower (trim_space given) in
    if named address to
    then Section.to_list
    else (if named address cc then Section.cc_list else Section.bcc_list)

-- The recipients of a submission: those with a mailbox, and the addresses of the others.
pub record Sorted : Type 0 where
  pub local : List Recipient
  pub to : List Text
  pub cc : List Text
  pub bcc : List Text

unfoldable pub put : Section → Text → Sorted → Sorted
put Section.to_list a s = record s { to = a ∷ s.to }
put Section.cc_list a s = record s { cc = a ∷ s.cc }
put Section.bcc_list a s = record s { bcc = a ∷ s.bcc }

unfoldable pub sort_recipients : List (Text × Text) → List (Text × Text) → List Recipient → Sorted
unfolding put
sort_recipients to cc [] = record { local = []; to = []; cc = []; bcc = [] }
sort_recipients to cc (r ∷ rs) =
    let s = sort_recipients to cc rs in
    if is_nil r.mailbox_id
    then put (classify_recipient r.address to cc) r.address s
    else record s { local = r ∷ s.local }

abbrev is_angle : ℕ → Bool
is_angle c = (c == b'<') || (c == b'>')

unfoldable pub normalize_message_id : Text → Text
normalize_message_id value = trim_space (trim_right is_angle (trim_left is_angle value))

pub outbound : {A : Type 0} → Parsed A → Sorted → Outbound
unfolding normalize_message_id
outbound message sorted = record {
  from_address = message.from_address;
  from_name = message.from_name;
  subject = message.subject;
  body = message.body;
  content_type = message.content_type;
  message_id = normalize_message_id message.id;
  in_reply_to = join (codes " ") message.in_reply_to;
  references = join (codes " ") message.references;
  to = sorted.to;
  cc = sorted.cc;
  bcc = sorted.bcc;
  attachment_ids = [];
}

module _ {A W : Type 0} (srv : Service A W) where
  unfoldable pub new_delivery_job :
      Parsed A → Text → List Recipient → Option Text → State W (Job Content A)
  new_delivery_job message sender recipients authentication = do
    id ← srv.new_id
    time ← srv.now
    pure record {
      content = record {
        id = id;
        message_id = message.id;
        in_reply_to = message.in_reply_to;
        references = message.references;
        from_address = message.from_address;
        from_name = message.from_name;
        subject = message.subject;
        body = message.body;
        content_type = message.content_type;
        omit_content_type = message.omit_content_type;
        to = message.to;
        cc = message.cc;
        envelope_from = sender;
        authentication = authentication;
        received_at = time;
      };
      recipients = recipients;
      transient = message.attachments;
      references = [];
    }

  -- the copies for local mailboxes
  deliver_local : Parsed A → Text → List Recipient → State W Bool
  unfolding new_delivery_job
  deliver_local message sender [] = pure true
  deliver_local message sender (r ∷ rs) = do
    job ← new_delivery_job message sender (r ∷ rs) none
    deliver_job srv.delivery job

  delete_all : List Reference → W → W
  delete_all [] w = w
  delete_all (key ∷ keys) w =
      delete_all keys (if is_nil key then w else (srv.delivery.delete_attachment key w).1)

  -- The relay's answer; what was staged for it is deleted if it failed.
  after_send : List Reference → Option Failure → State W (Option Error)
  unfolding delete_all submission_error
  after_send staged none w = (none, w)
  after_send staged (some e) w =
      (some (submission_error e), if srv.delivery.deletes then delete_all staged w else w)

  send : Outbound → List Reference → State W (Option Error)
  unfolding after_send
  send message staged = do
    sent ← srv.send_outbound (record message { attachment_ids = staged })
    after_send staged sent

  -- An error of the staging counts as `other`.
  send_staged : Outbound → Option (List Reference) → State W (Option Error)
  unfolding send submission_error
  send_staged message none = pure (some (submission_error Failure.other))
  send_staged message (some staged) = send message staged

  relay : Text → Parsed A → Sorted → State W (Option Error)
  unfolding send send_staged submission_error outbound
  relay mailbox message sorted =
      if no_items sorted.to && (no_items sorted.cc && no_items sorted.bcc)
      then pure none
      else (if no_items message.attachments
          then send (outbound message sorted) []
          else (if srv.delivery.stages
              then (do
                staged ← srv.delivery.stage mailbox message.attachments
                send_staged (outbound message sorted) staged)
              else pure (some (submission_error Failure.source_required))))

  after_local : Text → Parsed A → Sorted → Bool → State W (Option Error)
  unfolding relay
  after_local mailbox message sorted false = pure (some Error.plain)
  after_local mailbox message sorted true = relay mailbox message sorted

  after_reserve : Text → Parsed A → Text → List Recipient → Option Failure → State W (Option Error)
  unfolding submission_error sort_recipients deliver_local after_local
  after_reserve mailbox message sender recipients (some e) = pure (some (submission_error e))
  after_reserve mailbox message sender recipients none = do
    let sorted = sort_recipients message.to message.cc recipients
    delivered ← deliver_local message sender sorted.local
    after_local mailbox message sorted delivered

  unfoldable pub submit : Text → Parsed A → Text → List Recipient → State W (Option Error)
  unfolding after_reserve
  submit mailbox message sender recipients = do
    reserved ← srv.reserve_outbound_send mailbox
    after_reserve mailbox message sender recipients reserved
