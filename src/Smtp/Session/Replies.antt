-- ===== src/Smtp/Session/Replies.antt =====
-- When a session of internal/smtp/server.go accepts MAIL and RCPT.
use elec_postal.Base.{
  ◌≡◌, ◌≢◌, ◌⊎◌, ◌↔◌, inl, inr, refl, sym, ◌∙◌, Bool, true, false, not, ◌&&◌, Option, none, some,
  [], arith, Bool-cases,
}
use elec_postal.Text.{Text, to_lower, trim_space, nil-cases}
use elec_postal.Smtp.Service.{Resolved, Service, Config}
use elec_postal.Smtp.Session.{
  Session, submitter, requires_authentication, sender_checked, mail_from, mail, resolved, rcpt,
}

module _ {A W : Type 0} (srv : Service A W) (cfg : Config) where
  -- The sender is empty, or the mail service knows it as a sender of the mailbox.
  abbrev pub MaySend : Option Text → Text → W → Type 0
  MaySend none sender w = Unit
  MaySend (some mailbox) sender w =
      (sender ≡ []) ⊎ ((srv.is_mailbox_sender mailbox sender w).0 ≡ some true)

  sender_checked-none_iff :
      (sender : Text) (ss : Session) (allowed : Option Bool) (w : W)
      → ((sender_checked srv cfg sender ss allowed w).0.0 ≡ none) ↔ (allowed ≡ some true)
  unfolding sender_checked
  sender_checked-none_iff sender ss none w = ground arith
  sender_checked-none_iff sender ss (some false) w = ground arith
  sender_checked-none_iff sender ss (some true) w = ground arith

  mail_from-none_iff :
      (mailbox : Option Text) (sender : Text) (ss : Session) (w : W)
      → ((mail_from srv cfg mailbox sender ss w).0.0 ≡ none) ↔ MaySend mailbox sender w
  unfolding mail_from
  mail_from-none_iff none sender ss w = ((λ e. tt), λ h. refl)
  mail_from-none_iff (some mailbox) sender ss w = elim (nil-cases sender) [
    | inl (empty, e) ↦ rw (e, mail_from) ((λ q. inl empty), λ h. refl)
    | inr (n, e) ↦
        let (accepts, checked) =
          sender_checked-none_iff sender ss (srv.is_mailbox_sender mailbox sender w).0
            (srv.is_mailbox_sender mailbox sender w).1 in
        rw (e, mail_from)
          (
            (λ q. inr (accepts q)),
            λ h. elim h [ inl empty ↦ absurd (n empty) | inr allowed ↦ checked allowed ],
          )
  ]

  -- MAIL is accepted exactly if the session is authenticated where the configuration requires it,
  -- and its submitter, if it has one, may send from that address.
  pub mail-accepts_iff :
      (sender : Text) (ss : Session) (w : W)
      → ((mail srv cfg sender ss w).0.0 ≡ none) ↔ (
          (requires_authentication cfg ≡ true → ss.authenticated ≡ true)
          × MaySend (submitter ss) sender w)
  unfolding mail
  mail-accepts_iff sender ss w =
      elim (Bool-cases (requires_authentication cfg && not ss.authenticated)) [
        | inl e ↦ rw (e, mail) ((λ h. cc h), λ h. absurd (ground (arith, e, h.0)))
        | inr e ↦
            let (to_may, from_may) = mail_from-none_iff (submitter ss) sender ss w in
            rw (e, mail) ((λ h. ((λ r. ground (arith, e, r)), to_may h)), λ h. from_may h.1)
      ]

  resolved-none :
      (address : Text) (ss : Session) (r : Resolved)
      → r ≢ Resolved.failed
      → (resolved srv cfg address ss r).0 ≡ none
  unfolding resolved
  resolved-none address ss (Resolved.found mailbox) n = refl
  resolved-none address ss Resolved.not_found n = refl
  resolved-none address ss Resolved.failed n = absurd (n refl)

  -- The reply to RCPT does not tell a local mailbox from an unknown address: any two recipients
  -- whose lookups do not fail are answered alike, in whatever sessions.
  pub rcpt-indistinct :
      (given given' : Text) (ss ss' : Session) (w w' : W)
      → (srv.resolve_local_mailbox (to_lower (trim_space given)) w).0 ≢ Resolved.failed
      → (srv.resolve_local_mailbox (to_lower (trim_space given')) w').0 ≢ Resolved.failed
      → (rcpt srv cfg given ss w).0.0 ≡ (rcpt srv cfg given' ss' w').0.0
  unfolding rcpt
  rcpt-indistinct given given' ss ss' w w' n n' =
      resolved-none _ ss _ n ∙ sym (resolved-none _ ss' _ n')
