-- ===== src/Smtp/Session/Steps.antt =====
-- What the methods of a session in internal/smtp/server.go do to it.
use elec_postal.Base.{
  ◌≡◌, ◌≢◌, ◌⊎◌, inl, inr, refl, Bool, true, false, not, ◌&&◌, Option, none, some, List, arith,
  Bool-cases, Option-cases,
}
use elec_postal.Text.{Text, text_eq, is_nil, to_lower, trim_space}
use elec_postal.Smtp.Delivery.{Recipient}
use elec_postal.Smtp.Service.{Parsed, Error, Resolved, Service, Config}
use elec_postal.Smtp.Session.{
  Session, reset, submitter, requires_authentication, signed_in, auth_plain, begin, sender_checked,
  mail_from, mail, resolved, rcpt, after_data, handle_message, data_received,
}

module _ {A W : Type 0} (srv : Service A W) (cfg : Config) where
  signed_in-cases :
      (s : Session) (p : Option Text) (w : W)
      → let t = (signed_in srv cfg s p w).0.1 in
        (t ≡ s)
        ⊎ ((mailbox : Text) × (t ≡ record s { authenticated = true; principal = some mailbox }))
  unfolding signed_in
  signed_in-cases s none w = inl refl
  signed_in-cases s (some mailbox) w = inr (mailbox, refl)

  -- `auth_plain` leaves the session, or names a principal.
  pub auth-cases :
      (identity username password : Text) (s : Session) (w : W)
      → let t = (auth_plain srv cfg identity username password s w).0.1 in
        (t ≡ s)
        ⊎ ((mailbox : Text) × (t ≡ record s { authenticated = true; principal = some mailbox }))
  unfolding auth_plain
  auth-cases identity username password s w =
      elim (Bool-cases (not (is_nil identity) && not (text_eq identity username))) [
        | inl e ↦ rw (e, auth_plain) (inl refl)
        | inr e ↦
            rw (e, auth_plain)
              (signed_in-cases s (srv.authenticate username password w).0
                (srv.authenticate username password w).1)
      ]

  -- The accepted session, or an error and no change.
  abbrev pub Begun : Text → Session → Option Error × Session → Type 0
  Begun sender s r = ((r.0 ≢ none) × (r.1 ≡ s)) ⊎ ((r.0 ≡ none) × (r.1 ≡ begin srv cfg sender s))

  sender_checked-Begun :
      (sender : Text) (s : Session) (allowed : Option Bool) (w : W)
      → Begun sender s (sender_checked srv cfg sender s allowed w).0
  unfolding sender_checked
  sender_checked-Begun sender s none w = inl ((λ e. cc e), refl)
  sender_checked-Begun sender s (some false) w = inl ((λ e. cc e), refl)
  sender_checked-Begun sender s (some true) w = inr (refl, refl)

  mail_from-Begun :
      (mailbox : Option Text) (sender : Text) (s : Session) (w : W)
      → Begun sender s (mail_from srv cfg mailbox sender s w).0
  unfolding mail_from
  mail_from-Begun none sender s w = inr (refl, refl)
  mail_from-Begun (some mailbox) sender s w = elim (Bool-cases (is_nil sender)) [
    | inl e ↦ rw (e, mail_from) (inr (refl, refl))
    | inr e ↦
        rw (e, mail_from)
          (sender_checked-Begun sender s (srv.is_mailbox_sender mailbox sender w).0
            (srv.is_mailbox_sender mailbox sender w).1)
  ]

  pub mail-cases :
      (sender : Text) (s : Session) (w : W)
      → let r = (mail srv cfg sender s w).0 in
        Begun sender s r
        × (r.0 ≡ none → requires_authentication cfg ≡ true → s.authenticated ≡ true)
  unfolding mail
  mail-cases sender s w = elim (Bool-cases (requires_authentication cfg && not s.authenticated)) [
    | inl e ↦ rw (e, mail) (inl ((λ h. cc h), refl), λ h. cc h)
    | inr e ↦ rw (e, mail) (mail_from-Begun (submitter s) sender s w, λ h r. ground (arith, e, r))
  ]

  after_data-cases :
      (s : Session) (e : Option Error)
      → ((after_data srv cfg s e).1 ≡ s) ⊎ ((after_data srv cfg s e).1 ≡ reset s)
  unfolding after_data
  after_data-cases s none = inr refl
  after_data-cases s (some e) = inl refl

  handle_message-cases :
      (mailbox : Option Text) (raw : Text) (message : Parsed A) (s : Session) (w : W)
      → let t = (handle_message srv cfg mailbox raw message s w).0.1 in (t ≡ s) ⊎ (t ≡ reset s)
  unfolding handle_message
  handle_message-cases none raw message s w = after_data-cases s _
  handle_message-cases (some mailbox) raw message s w = after_data-cases s _

  pub data-cases :
      (raw : Option Text) (s : Session) (w : W)
      → let t = (data_received srv cfg raw s w).0.1 in (t ≡ s) ⊎ (t ≡ reset s)
  unfolding data_received
  data-cases none s w = inl refl
  data-cases (some raw) s w = elim (Option-cases (srv.parse raw s.sender s.recipients)) [
    | inl e ↦ rw (e, data_received) (inl refl)
    | inr (message, e) ↦ rw (e, data_received) (handle_message-cases (submitter s) raw message s w)
  ]

  resolved-cases :
      (address : Text) (s : Session) (r : Resolved)
      → (rs : List Recipient) × ((resolved srv cfg address s r).1 ≡ record s { recipients = rs })
  unfolding resolved
  resolved-cases address s (Resolved.found mailbox) = (_, refl)
  resolved-cases address s Resolved.not_found = (_, refl)
  resolved-cases address s Resolved.failed = (_, refl)

  pub rcpt-cases :
      (given : Text) (s : Session) (w : W)
      → (rs : List Recipient) × ((rcpt srv cfg given s w).0.1 ≡ record s { recipients = rs })
  unfolding rcpt
  rcpt-cases given s w =
      resolved-cases _ s (srv.resolve_local_mailbox (to_lower (trim_space given)) w).0
