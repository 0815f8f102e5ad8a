-- ===== src/Smtp/Session.antt =====
-- The session of internal/smtp/server.go: `Auth`, `Mail`, `Rcpt`, `Data` and `Reset`. Package
-- go-smtp reads the commands and calls these methods.
pub mod Access
pub mod Relay
pub mod Replies
mod Steps
use elec_postal.Base.{
  Bool, true, false, not, ◌&&◌, ◌||◌, Option, none, some, List, [], ◌∷◌, ◌++◌, if◌then◌else◌,
}
use elec_postal.Text.{Text, codes, text_eq, is_nil, to_lower, trim_space}
use elec_postal.SenderAuth.State.{State, ◌>>=◌, pure}
use elec_postal.Smtp.Delivery.{Recipient}
use elec_postal.Smtp.Service.{Parsed, Error, Resolved, Service, Config}
use elec_postal.Smtp.Submission.{new_delivery_job, submit}

unfoldable pub requires_authentication : Config → Bool
requires_authentication cfg = cfg.require_auth || text_eq (trim_space cfg.port) (codes "587")

-- `principal` is the `MailboxID` of the principal.
pub record Session : Type 0 where
  pub authenticated : Bool
  pub principal : Option Text
  pub peer_ip : Text
  pub sender : Text
  pub recipients : List Recipient

abbrev pub new_session : Text → Session
new_session peer = record {
  authenticated = false;
  principal = none;
  peer_ip = peer;
  sender = [];
  recipients = [];
}

abbrev pub reset : Session → Session
reset ss = record ss { sender = []; recipients = [] }

-- the mailbox for which a session submits
abbrev pub submitter : Session → Option Text
submitter ss = elim ss.principal [
  | none ↦ none
  | some mailbox ↦ if is_nil mailbox then none else some mailbox
]

module _ {A W : Type 0} (srv : Service A W) (cfg : Config) where
  -- A method of a session: an error or none, and the session after it.
  abbrev Method : Type 0
  Method = State W (Option Error × Session)

  signed_in : Session → Option Text → Method
  signed_in ss none = pure (some Error.plain, ss)
  signed_in ss (some mailbox) =
      pure (none, record ss { authenticated = true; principal = some mailbox })

  -- the callback that `Auth` hands to the PLAIN mechanism
  unfoldable pub auth_plain : Text → Text → Text → Session → Method
  unfolding signed_in
  auth_plain identity username password ss =
      if not (is_nil identity) && not (text_eq identity username)
      then pure (some Error.plain, ss)
      else (do p ← srv.authenticate username password; signed_in ss p)

  abbrev begin : Text → Session → Session
  begin sender ss = record ss { sender = to_lower sender; recipients = [] }

  sender_checked : Text → Session → Option Bool → Method
  sender_checked sender ss none =
      pure (some (Error.smtp 451 (codes "4.3.0") (codes "Temporary sender lookup failure")), ss)
  sender_checked sender ss (some false) = pure (
    some (
        Error.smtp 553 (codes "5.7.1")
          (codes "Sender address does not match authenticated mailbox")),
    ss,
  )
  sender_checked sender ss (some true) = pure (none, begin sender ss)

  mail_from : Option Text → Text → Session → Method
  unfolding sender_checked
  mail_from none sender ss = pure (none, begin sender ss)
  mail_from (some mailbox) sender ss =
      if is_nil sender
      then pure (none, begin sender ss)
      else (do allowed ← srv.is_mailbox_sender mailbox sender; sender_checked sender ss allowed)

  unfoldable pub mail : Text → Session → Method
  unfolding requires_authentication mail_from
  mail sender ss =
      if requires_authentication cfg && not ss.authenticated
      then pure (some (Error.smtp 530 (codes "5.7.0") (codes "Authentication required")), ss)
      else mail_from (submitter ss) sender ss

  -- A recipient without a mailbox is taken as well.
  resolved : Text → Session → Resolved → Option Error × Session
  resolved address ss (Resolved.found mailbox) = (
    none,
    record ss {
      recipients = ss.recipients ++ record { address = address; mailbox_id = mailbox } ∷ [];
    },
  )
  resolved address ss Resolved.not_found = (
    none,
    record ss { recipients = ss.recipients ++ record { address = address; mailbox_id = [] } ∷ [] },
  )
  resolved address ss Resolved.failed =
      (some (Error.smtp 451 (codes "4.3.0") (codes "Temporary recipient lookup failure")), ss)

  unfoldable pub rcpt : Text → Session → Method
  unfolding resolved
  rcpt given ss = do
    let address = to_lower (trim_space given)
    r ← srv.resolve_local_mailbox address
    pure (resolved address ss r)

  -- `Data` resets the session when it is done.
  after_data : Session → Option Error → Option Error × Session
  after_data ss none = (none, reset ss)
  after_data ss (some e) = (some e, ss)

  verify_sender : Text → Session → State W (Option Text)
  verify_sender raw ss = elim srv.verify [
    | none ↦ pure none
    | some verify ↦ verify raw ss.sender ss.peer_ip
  ]

  -- what an enqueuing answers
  abbrev queued : Bool → Option Error
  queued true = none
  queued false = some Error.plain

  handle_message : Option Text → Text → Parsed A → Session → Method
  unfolding after_data verify_sender
  handle_message (some mailbox) raw message ss = do
    e ← submit srv mailbox message ss.sender ss.recipients
    pure (after_data ss e)
  handle_message none raw message ss = do
    authentication ← verify_sender raw ss
    job ← new_delivery_job srv message ss.sender ss.recipients authentication
    ok ← srv.enqueue job
    pure (after_data ss (queued ok))

  -- `raw` is none where the client broke off.
  unfoldable pub data_received : Option Text → Session → Method
  unfolding handle_message
  data_received none ss = pure (some Error.plain, ss)
  data_received (some raw) ss = elim (srv.parse raw ss.sender ss.recipients) [
    | none ↦ pure (some Error.plain, ss)
    | some message ↦ handle_message (submitter ss) raw message ss
  ]
