-- ===== src/Smtp/Session/Relay.antt =====
-- Which messages of a session in internal/smtp/server.go reach the outbound relay.
use elec_postal.Base.{
  ◌≡◌, ◌≢◌, ◌⊎◌, inl, inr, refl, sym, Option, none, some, List, [], ◌∷◌, arith, Option-cases,
}
use elec_postal.Text.{Text, nil-cases}
use elec_postal.Smtp.Service.{Parsed, Outbound, Service, Config}
use elec_postal.Smtp.Submission.{sort_recipients, outbound, new_delivery_job}
use elec_postal.Smtp.Submission.Relay.{recorded, submit-Sent, IsRelayed, outbound-IsRelayed}
use elec_postal.Smtp.Session.{Session, submitter, verify_sender, handle_message, data_received}

module _ {A W : Type 0} (srv : Service A W) (cfg : Config) where
  -- Nothing is relayed, or one message: the session has a principal with a mailbox, and the message
  -- is what the received text parses to.
  abbrev pub Relays : Session → Option Text → List Outbound → Type 0
  Relays ss raw log =
      (log ≡ [])
      ⊎ ((mailbox : Text) × (text : Text) × (message : Parsed A) × (o : Outbound) × (ss.principal
            ≡ some mailbox)
          × (mailbox ≢ [])
          × (raw ≡ some text)
          × (srv.parse text ss.sender ss.recipients ≡ some message)
          × (log ≡ o ∷ [])
          × IsRelayed message ss.recipients o)

  submitter-principal :
      (ss : Session) (mailbox : Text)
      → submitter ss ≡ some mailbox
      → (ss.principal ≡ some mailbox) × (mailbox ≢ [])
  submitter-principal ss mailbox h = elim (Option-cases ss.principal) [
    | inl e ↦ absurd (cc (rw e at h))
    | inr (m, e) ↦ elim (nil-cases m) [
      | inl (empty, blank) ↦ absurd (cc (rw (e, blank) at h))
      | inr (solid, given) ↦
          let same : m ≡ mailbox = ground (arith, rw (e, given) at h) in rw (sym same) (e, solid)
    ]
  ]

  verify_sender-log :
      (raw : Text) (ss : Session) (s : W × List Outbound)
      → (verify_sender (recorded srv) cfg raw ss s).1.1 ≡ s.1
  unfolding verify_sender
  verify_sender-log raw ss s = elim (Option-cases srv.verify) [
    | inl e ↦ rw (e, verify_sender) refl
    | inr (verify, e) ↦ rw (e, verify_sender) refl
  ]

  handle_message-Relays :
      (mailbox : Option Text) (raw : Text) (message : Parsed A) (ss : Session) (w : W)
      → submitter ss ≡ mailbox
      → srv.parse raw ss.sender ss.recipients ≡ some message
      → Relays ss (some raw) (handle_message (recorded srv) cfg mailbox raw message ss (w, [])).1.1
  unfolding handle_message new_delivery_job
  handle_message-Relays none raw message ss w e q = inl (verify_sender-log raw ss (w, []))
  handle_message-Relays (some mailbox) raw message ss w e q =
      let (principal, solid) = submitter-principal ss mailbox e in
      elim (submit-Sent srv mailbox message ss.sender ss.recipients (w, [])) [
        | inl none_sent ↦ inl none_sent
        | inr (ids, sent) ↦ inr (
          mailbox,
          raw,
          message,
          record (outbound message (sort_recipients message.to message.cc ss.recipients)) {
            attachment_ids = ids;
          },
          principal,
          solid,
          refl,
          q,
          sent,
          outbound-IsRelayed message ss.recipients ids,
        )
      ]

  -- Whatever the mail service answers, one DATA hands the relay at most one message, and only in a
  -- session whose principal has a mailbox. It has the sender, the subject, the text and the
  -- references of the parsed message, and it is addressed to exactly the recipients of the envelope
  -- without a local mailbox: to those that the To header names, to the others that the Cc header
  -- names, and to the rest in Bcc, so that no header shows an address that the client did not show.
  pub data_received-Relays :
      (raw : Option Text) (ss : Session) (w : W)
      → Relays ss raw (data_received (recorded srv) cfg raw ss (w, [])).1.1
  unfolding data_received
  data_received-Relays none ss w = inl refl
  data_received-Relays (some raw) ss w =
      elim (Option-cases (srv.parse raw ss.sender ss.recipients)) [
        | inl e ↦ rw (e, data_received) (inl refl)
        | inr (message, e) ↦
            rw (e, data_received) (handle_message-Relays (submitter ss) raw message ss w refl e)
      ]
