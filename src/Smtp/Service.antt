-- ===== src/Smtp/Service.antt =====
-- What internal/smtp/server.go works on and with: the parsed message, the delivery job, the message
-- for the relay, the errors, and the mail service, queue and verifier behind the server.
-- `parseMessage` is a field of the service.
use elec_postal.Base.{ℕ, Bool, Option, List}
use elec_postal.Text.{Text}
use elec_postal.SenderAuth.State.{State}
use elec_postal.Smtp.Delivery.{Recipient, Reference, Job, Backend}

-- `parsedMessage`; the header lists hold addresses and names
pub record Parsed (A : Type 0) : Type 0 where
  pub id : Text
  pub in_reply_to : List Text
  pub references : List Text
  pub from_address : Text
  pub from_name : Text
  pub subject : Text
  pub body : Text
  pub content_type : Text
  pub omit_content_type : Bool
  pub to : List (Text × Text)
  pub cc : List (Text × Text)
  pub attachments : List A

-- What a delivery job carries besides recipients and attachments.
pub record Content : Type 0 where
  pub id : Text
  pub message_id : Text
  pub in_reply_to : List Text
  pub references : List Text
  pub from_address : Text
  pub from_name : Text
  pub subject : Text
  pub body : Text
  pub content_type : Text
  pub omit_content_type : Bool
  pub to : List (Text × Text)
  pub cc : List (Text × Text)
  pub envelope_from : Text
  pub authentication : Option Text
  pub received_at : ℕ

-- `relay.Message`, as far as it is filled here
pub record Outbound : Type 0 where
  pub from_address : Text
  pub from_name : Text
  pub subject : Text
  pub body : Text
  pub content_type : Text
  pub message_id : Text
  pub in_reply_to : Text
  pub references : Text
  pub to : List Text
  pub cc : List Text
  pub bcc : List Text
  pub attachment_ids : List Reference

-- an error with a reply code of its own, or any other error
pub data Error : Type 0 where
  smtp : ℕ → Text → Text → Error
  plain : Error

-- The errors that `submissionError` tells apart.
pub data Failure : Type 0 where
  relay_unavailable limit_exceeded source_required other : Failure

pub data Resolved : Type 0 where
  found : Text → Resolved
  not_found failed : Resolved

-- The mail service, the queue, the verifier, and the clock and the generator of identifiers; an
-- error is none in `is_mailbox_sender`, `authenticate` and `parse`, and false in `enqueue`.
pub record Service (A W : Type 0) : Type 0 where
  pub resolve_local_mailbox : Text → State W Resolved
  pub is_mailbox_sender : Text → Text → State W (Option Bool)
  pub authenticate : Text → Text → State W (Option Text)
  pub reserve_outbound_send : Text → State W (Option Failure)
  pub send_outbound : Outbound → State W (Option Failure)
  pub enqueue : Job Content A → State W Bool
  pub delivery : Backend Content A W
  pub parse : Text → Text → List Recipient → Option (Parsed A)
  -- the verifier's result as JSON, for the message, the sender and the peer
  pub verify : Option (Text → Text → Text → State W (Option Text))
  pub new_id : State W Text
  pub now : State W ℕ

pub record Config : Type 0 where
  pub require_auth : Bool
  pub port : Text
