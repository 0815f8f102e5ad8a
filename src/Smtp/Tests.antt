-- ===== src/Smtp/Tests.antt =====
-- The theorems on SMTP at a concrete session: one known mailbox, port 587, and a message to a local
-- and two foreign addresses.
use mathlib.Core.List.{Perm}
use elec_postal.Base.{
  ◌≡◌, ◌≢◌, ◌↔◌, ◌⊎◌, refl, true, false, none, some, List, [], ◌∷◌, All, if◌then◌else◌,
}
use elec_postal.Text.{Text, codes, text_eq, to_lower, trim_space, cut_last, member}
use elec_postal.Smtp.Delivery.{Recipient, Job, Backend, deliver_job, is_dmarc_recipient}
use elec_postal.Smtp.Delivery.Copies.{IsFor, Fresh, HasCopy}
use elec_postal.Smtp.Delivery.Once.{recorded, deliver_job-once}
use elec_postal.Smtp.Delivery.Deletion.{traced, Gone}
use elec_postal.Smtp.Queue.{Broker, enqueue, handle}
use elec_postal.Smtp.Queue.Cleanup.{traced_broker, enqueue-Clean}
use elec_postal.Smtp.Queue.Acknowledge.{same_broker, Delivered, handle-ack}
use elec_postal.Smtp.Service.{Parsed, Outbound, Resolved, Service, Config}
use elec_postal.Smtp.Submission.{sort_recipients, classify_recipient, put, named}
use elec_postal.Smtp.Submission.Relay
use elec_postal.Smtp.Submission.Recipients.{
  with_mailbox, without_mailbox, all_of, sort_recipients-perm,
}
use elec_postal.Smtp.Session.{
  Session, new_session, requires_authentication, auth_plain, mail, rcpt, data_received,
}
use elec_postal.Smtp.Session.Access.{
  Reach, start, signs_in, mail_accepted, IsGuarded, Reach-IsGuarded,
}
use elec_postal.Smtp.Session.Relay.{Relays, data_received-Relays}
use elec_postal.Smtp.Session.Replies.{MaySend, mail-accepts_iff, rcpt-indistinct}

abbrev nothing : Unit {0}
nothing = tt

-- The surroundings do not change.
abbrev store : {C : Type 0} → Backend C Text Unit
store = record {
  stages = true;
  deletes = true;
  stage = λ mailbox as' w. (some as', w);
  delete_attachment = λ key w. (tt, w);
  receive = λ d w. (true, w);
}

abbrev at : Text → Text → Recipient
at address mailbox = record { address = address; mailbox_id = mailbox }

abbrev ann : Recipient
ann = at (codes "ann@local") (codes "box")

abbrev intake : Recipient
intake = at (codes "dmarc@local") (codes "box")

abbrev bob : Recipient
bob = at (codes "bob@far") []

abbrev parsed : Parsed Text
parsed = record {
  id = codes "<1@local>";
  in_reply_to = [];
  references = [];
  from_address = codes "ann@local";
  from_name = [];
  subject = codes "hi";
  body = codes "text";
  content_type = codes "text/plain";
  omit_content_type = false;
  to = (codes "Bob@far", []) ∷ [];
  cc = [];
  attachments = [];
}

abbrev srv : Service Text Unit
srv = record {
  resolve_local_mailbox = λ a w. (
    if text_eq a (codes "ann@local") then Resolved.found (codes "box") else Resolved.not_found,
    w,
  );
  is_mailbox_sender = λ m a w. (some (text_eq a (codes "ann@local")), w);
  authenticate = λ u p w. (if text_eq p (codes "pw") then some (codes "box") else none, w);
  reserve_outbound_send = λ m w. (none, w);
  send_outbound = λ o w. (none, w);
  enqueue = λ job w. (true, w);
  delivery = store;
  parse = λ raw sender rs. some parsed;
  verify = none;
  new_id = λ w. (codes "id", w);
  now = λ w. (0, w);
}

-- with a list of the messages for the relay
abbrev with_log : Service Text (Unit × List Outbound)
with_log = elec_postal.Smtp.Submission.Relay.recorded srv

abbrev cfg : Config
cfg = record { require_auth = false; port = codes " 587" }

abbrev signed_in : Session
signed_in = record (new_session (codes "192.0.2.1")) {
  authenticated = true;
  principal = some (codes "box");
}

abbrev ready : Session
ready = record signed_in { sender = codes "ann@local"; recipients = ann ∷ bob ∷ [] }

abbrev job : Job Unit Text
job = record {
  content = tt;
  recipients = ann ∷ bob ∷ intake ∷ [];
  transient = codes "file" ∷ [];
  references = [];
}

dmarc : is_dmarc_recipient (codes " DMARC@local") ≡ true
unfolding is_dmarc_recipient to_lower trim_space text_eq cut_last
dmarc = refl

sorted_example :
    sort_recipients parsed.to parsed.cc (ann ∷ bob ∷ at (codes "eve@far") [] ∷ [])
    ≡ record { local = ann ∷ []; to = codes "bob@far" ∷ []; cc = []; bcc = codes "eve@far" ∷ [] }
unfolding sort_recipients put classify_recipient named text_eq to_lower trim_space
sorted_example = refl

anonymous : (mail srv cfg (codes "ann@local") (new_session []) tt).0.0 ≢ none
unfolding mail requires_authentication text_eq trim_space
anonymous e = cc e

mail-accepts_iff_example : ((mail srv cfg (codes "ann@local") signed_in tt).0.0 ≡ none) ↔ (
    (requires_authentication cfg ≡ true → true ≡ true)
    × MaySend srv cfg (some (codes "box")) (codes "ann@local") tt)
mail-accepts_iff_example = mail-accepts_iff srv cfg (codes "ann@local") signed_in tt

rcpt-indistinct_example :
    (rcpt srv cfg (codes "Ann@local") signed_in tt).0.0
    ≡ (rcpt srv cfg (codes "eve@local") ready tt).0.0
unfolding text_eq to_lower trim_space
rcpt-indistinct_example =
    rcpt-indistinct srv cfg (codes "Ann@local") (codes "eve@local") signed_in ready tt tt
      (λ e. cc e) (λ e. cc e)

login : Reach srv cfg (codes "192.0.2.1") false signed_in
unfolding auth_plain text_eq
login = signs_in [] (codes "ann") (codes "pw") none tt start refl

opened : Reach srv cfg (codes "192.0.2.1") true (record signed_in { sender = codes "ann@local" })
unfolding mail requires_authentication text_eq to_lower trim_space
opened = mail_accepted (codes "ann@local") tt login refl

Reach-IsGuarded_example :
    IsGuarded srv cfg (codes "192.0.2.1") true (record signed_in { sender = codes "ann@local" })
Reach-IsGuarded_example = Reach-IsGuarded srv cfg opened

data_received-Relays_example :
    Relays srv cfg ready
      (some (codes "raw"))
      (data_received (with_log) cfg (some (codes "raw")) ready (tt, [])).1.1
data_received-Relays_example = data_received-Relays srv cfg (some (codes "raw")) ready tt

sort_recipients-perm_example :
    ((sort_recipients parsed.to parsed.cc (ann ∷ bob ∷ [])).local ≡ with_mailbox (ann ∷ bob ∷ []))
    × Perm
        (all_of (sort_recipients parsed.to parsed.cc (ann ∷ bob ∷ [])))
        (without_mailbox (ann ∷ bob ∷ []))
sort_recipients-perm_example = sort_recipients-perm parsed.to parsed.cc (ann ∷ bob ∷ [])

deliver_job-once_example :
    let r = deliver_job (recorded store) job (tt, []) in
    All (IsFor job) r.1.1
    × Fresh [] r.1.1
    × (r.0 ≡ true
        → All (λ (x : Recipient). (x.mailbox_id ≡ []) ⊎ HasCopy x.mailbox_id r.1.1) job.recipients)
deliver_job-once_example = deliver_job-once store job tt

-- The stream refuses what it is given, and holds the job.
abbrev broker : Broker Unit Text Unit
broker = record {
  marshal = λ j. some [];
  unmarshal = λ t. some job;
  decode_legacy = λ t. some none;
  publish = λ j payload w. (false, w);
}

refused : (enqueue store broker job tt).0 ≡ false
unfolding enqueue text_eq
refused = refl

enqueue-Clean_example :
    let r = enqueue (traced store) (traced_broker broker) job (tt, ([], [])) in
    All (Gone r.1.1.1) r.1.1.0
unfolding enqueue text_eq
enqueue-Clean_example = enqueue-Clean store broker refl job tt refl

handle-ack_example :
    let r = handle (recorded store) (same_broker broker) [] (tt, []) in
    (found : Job Unit Text) × ((broker.decode_legacy [] ≡ some (some found))
      ⊎ (broker.unmarshal [] ≡ some found))
    × Delivered store broker found r.1.1
unfolding handle deliver_job member
handle-ack_example = handle-ack store broker [] tt refl
