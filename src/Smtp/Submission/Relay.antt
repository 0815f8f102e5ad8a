-- ===== src/Smtp/Submission/Relay.antt =====
-- What `submit` of internal/smtp/server.go hands to the outbound relay.
use mathlib.Core.Path.{subst}
use mathlib.Core.List.{Perm}
use elec_postal.Base.{
  ◌≡◌, ◌⊎◌, inl, inr, refl, Bool, true, false, ◌&&◌, Option, none, some, List, [], ◌∷◌, ◌++◌,
  Bool-cases,
}
use elec_postal.Text.{Text, codes, is_nil, join}
use elec_postal.Smtp.Delivery.{Recipient, Reference, no_items}
use elec_postal.Smtp.Delivery.Beside.{beside, beside_delivery, deliver_job-log}
use elec_postal.Smtp.Service.{Parsed, Outbound, Failure, Service}
use elec_postal.Smtp.Submission.{
  Sorted, sort_recipients, outbound, new_delivery_job, deliver_local, delete_all, after_send, send,
  send_staged, relay, after_local, after_reserve, submit, normalize_message_id,
}
use elec_postal.Smtp.Submission.Recipients.{
  without_mailbox, sort_recipients-perm, IsPlaced, sort_recipients-IsPlaced,
}

-- the service with a list of the messages that it was given for the relay
abbrev pub recorded : {A W : Type 0} → Service A W → Service A (W × List Outbound)
recorded srv = record {
  resolve_local_mailbox = λ a. beside (srv.resolve_local_mailbox a);
  is_mailbox_sender = λ m a. beside (srv.is_mailbox_sender m a);
  authenticate = λ u p. beside (srv.authenticate u p);
  reserve_outbound_send = λ m. beside (srv.reserve_outbound_send m);
  send_outbound = λ o s. let (e, w') = srv.send_outbound o s.0 in (e, (w', s.1 ++ o ∷ []));
  enqueue = λ job. beside (srv.enqueue job);
  delivery = beside_delivery srv.delivery;
  parse = srv.parse;
  verify = elim srv.verify [
    | none ↦ none
    | some verify ↦ some (λ raw sender peer. beside (verify raw sender peer))
  ];
  new_id = beside srv.new_id;
  now = beside srv.now;
}

-- The message for the relay is the parsed one, with exactly the addresses of the envelope that have
-- no mailbox: those that its headers name in To and Cc, and all others in Bcc only.
abbrev pub IsRelayed : {A : Type 0} → Parsed A → List Recipient → Outbound → Type 0
IsRelayed message rs o =
    (o.from_address ≡ message.from_address)
    × (o.from_name ≡ message.from_name)
    × (o.subject ≡ message.subject)
    × (o.body ≡ message.body)
    × (o.content_type ≡ message.content_type)
    × (o.message_id ≡ normalize_message_id message.id)
    × (o.in_reply_to ≡ join (codes " ") message.in_reply_to)
    × (o.references ≡ join (codes " ") message.references)
    × Perm (o.to ++ (o.cc ++ o.bcc)) (without_mailbox rs)
    × IsPlaced message.to message.cc o.to o.cc o.bcc

pub outbound-IsRelayed :
    {A : Type 0} (message : Parsed A) (rs : List Recipient) (ids : List Reference)
    → IsRelayed message rs (record (outbound message (sort_recipients message.to message.cc rs)) {
      attachment_ids = ids;
    })
unfolding outbound
outbound-IsRelayed message rs ids = (
  refl,
  refl,
  refl,
  refl,
  refl,
  refl,
  refl,
  refl,
  (sort_recipients-perm message.to message.cc rs).1,
  sort_recipients-IsPlaced message.to message.cc rs,
)

module _ {A W : Type 0} (srv : Service A W) where
  deliver_local-log :
      (message : Parsed A) (sender : Text) (rs : List Recipient) (s : W × List Outbound)
      → (deliver_local (recorded srv) message sender rs s).1.1 ≡ s.1
  unfolding deliver_local new_delivery_job
  deliver_local-log message sender [] s = refl
  deliver_local-log message sender (r ∷ rs) s = deliver_job-log srv.delivery _ _

  delete_all-log :
      (keys : List Reference) (s : W × List Outbound) → (delete_all (recorded srv) keys s).1 ≡ s.1
  unfolding delete_all
  delete_all-log [] s = refl
  delete_all-log (key ∷ keys) s = elim (Bool-cases (is_nil key)) [
    | inl e ↦ rw (e, delete_all) (delete_all-log keys s)
    | inr e ↦
        rw (e, delete_all) (delete_all-log keys ((srv.delivery.delete_attachment key s.0).1, s.1))
  ]

  -- Nothing was added, or the message with these staged attachments.
  abbrev pub Sent : Outbound → List Outbound → List Outbound → Type 0
  Sent message old log =
      (log ≡ old)
      ⊎ ((ids : List Reference) × (log ≡ old ++ record message { attachment_ids = ids } ∷ []))

  after_send-log :
      (staged : List Reference) (e : Option Failure) (s : W × List Outbound)
      → (after_send (recorded srv) staged e s).1.1 ≡ s.1
  unfolding after_send
  after_send-log staged none s = refl
  after_send-log staged (some e) s = elim (Bool-cases srv.delivery.deletes) [
    | inl q ↦ rw (q, after_send) (delete_all-log staged s)
    | inr q ↦ rw (q, after_send) refl
  ]

  send-Sent :
      (message : Outbound) (staged : List Reference) (s : W × List Outbound)
      → Sent message s.1 (send (recorded srv) message staged s).1.1
  unfolding send
  send-Sent message staged s = inr (
    staged,
    after_send-log staged (srv.send_outbound (record message { attachment_ids = staged }) s.0).0 _,
  )

  send_staged-Sent :
      (message : Outbound) (staged : Option (List Reference)) (s : W × List Outbound)
      → Sent message s.1 (send_staged (recorded srv) message staged s).1.1
  unfolding send_staged
  send_staged-Sent message none s = inl refl
  send_staged-Sent message (some staged) s = send-Sent message staged s

  relay-Sent :
      (mailbox : Text) (message : Parsed A) (sorted : Sorted) (s : W × List Outbound)
      → Sent (outbound message sorted) s.1 (relay (recorded srv) mailbox message sorted s).1.1
  unfolding relay
  relay-Sent mailbox message sorted s =
      elim (Bool-cases (no_items sorted.to && (no_items sorted.cc && no_items sorted.bcc))) [
        | inl e ↦ rw (e, relay) (inl refl)
        | inr e ↦ elim (Bool-cases (no_items message.attachments)) [
          | inl q ↦ rw (e, q, relay) (send-Sent (outbound message sorted) [] s)
          | inr q ↦ elim (Bool-cases srv.delivery.stages) [
            | inl h ↦
                rw (e, q, h, relay)
                  (send_staged-Sent (outbound message sorted)
                    (srv.delivery.stage mailbox message.attachments s.0).0 _)
            | inr h ↦ rw (e, q, h, relay) (inl refl)
          ]
        ]
      ]

  after_local-Sent :
      (mailbox : Text) (message : Parsed A) (sorted : Sorted) (ok : Bool) (s : W × List Outbound)
      → Sent
          (outbound message sorted)
          s.1
          (after_local (recorded srv) mailbox message sorted ok s).1.1
  unfolding after_local
  after_local-Sent mailbox message sorted false s = inl refl
  after_local-Sent mailbox message sorted true s = relay-Sent mailbox message sorted s

  after_reserve-Sent :
      (mailbox : Text) (message : Parsed A) (sender : Text) (rs : List Recipient)
      (e : Option Failure) (s : W × List Outbound)
      → Sent
          (outbound message (sort_recipients message.to message.cc rs))
          s.1
          (after_reserve (recorded srv) mailbox message sender rs e s).1.1
  unfolding after_reserve
  after_reserve-Sent mailbox message sender rs (some e) s = inl refl
  after_reserve-Sent mailbox message sender rs none s =
      let sorted = sort_recipients message.to message.cc rs in
      let (ok, s') = deliver_local (recorded srv) message sender sorted.local s in
      subst
        (λ l.
          Sent (outbound message sorted) l
            (after_local (recorded srv) mailbox message sorted ok s').1.1)
        (deliver_local-log message sender sorted.local s)
        (after_local-Sent mailbox message sorted ok s')

  pub submit-Sent :
      (mailbox : Text) (message : Parsed A) (sender : Text) (rs : List Recipient)
      (s : W × List Outbound)
      → Sent
          (outbound message (sort_recipients message.to message.cc rs))
          s.1
          (submit (recorded srv) mailbox message sender rs s).1.1
  unfolding submit
  submit-Sent mailbox message sender rs s =
      after_reserve-Sent mailbox message sender rs (srv.reserve_outbound_send mailbox s.0).0 _
