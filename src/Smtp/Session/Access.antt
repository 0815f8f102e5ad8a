-- ===== src/Smtp/Session/Access.antt =====
-- What a session of internal/smtp/server.go lets a client do.
use mathlib.Core.Path.{subst}
use elec_postal.Base.{
  ◌≡◌, ◌≢◌, ◌⊎◌, ◌↔◌, inl, inr, refl, sym, ap, ◌∙◌, Bool, true, false, Option, none, some, List, [],
}
use elec_postal.Text.{Text}
use elec_postal.Smtp.Delivery.{Recipient}
use elec_postal.Smtp.Service.{Error, Service, Config}
use elec_postal.Smtp.Session.{
  Session, new_session, reset, requires_authentication, auth_plain, mail, rcpt, data_received,
}
use elec_postal.Smtp.Session.Steps.{Begun, auth-cases, mail-cases, data-cases, rcpt-cases}

module _ {A W : Type 0} (srv : Service A W) (cfg : Config) where
  -- The sessions that calls of go-smtp can lead to; the flag says whether MAIL was accepted and no
  -- reset followed, without which the package calls neither `Rcpt` nor `Data`.
  pub data Reach (peer : Text) : Bool → Session → Type 0 where
    start : Reach peer false (new_session peer)
    signs_in :
        {opened : Bool} {s t : Session} (identity username password : Text) (e : Option Error)
        (w : W)
        → Reach peer opened s
        → (auth_plain srv cfg identity username password s w).0 ≡ (e, t)
        → Reach peer opened t
    mail_accepted :
        {opened : Bool} {s t : Session} (sender : Text) (w : W)
        → Reach peer opened s
        → (mail srv cfg sender s w).0 ≡ (none, t)
        → Reach peer true t
    mail_refused :
        {opened : Bool} {s t : Session} (sender : Text) (e : Error) (w : W)
        → Reach peer opened s
        → (mail srv cfg sender s w).0 ≡ (some e, t)
        → Reach peer opened t
    names :
        {s t : Session} (given : Text) (e : Option Error) (w : W)
        → Reach peer true s
        → (rcpt srv cfg given s w).0 ≡ (e, t)
        → Reach peer true t
    data_done :
        {s t : Session} (raw : Option Text) (e : Option Error) (w : W)
        → Reach peer true s
        → (data_received srv cfg raw s w).0 ≡ (e, t)
        → Reach peer false (reset t)
    resets : {opened : Bool} {s : Session} → Reach peer opened s → Reach peer false (reset s)

  pub record IsGuarded (peer : Text) (opened : Bool) (s : Session) : Type 0 where
    pub peer_kept : s.peer_ip ≡ peer
    -- a session is authenticated by a principal
    pub known : (s.authenticated ≡ true) ↔ (s.principal ≢ none)
    -- where authentication is required, a message is accepted behind it only
    pub required : requires_authentication cfg ≡ true → opened ≡ true → s.authenticated ≡ true
    -- recipients are named behind an accepted MAIL only
    pub closed : opened ≡ false → s.recipients ≡ []

  reset-IsGuarded :
      {peer : Text} {opened : Bool} {s : Session}
      → IsGuarded peer opened s
      → IsGuarded peer false (reset s)
  reset-IsGuarded safe = record {
    peer_kept = safe.peer_kept;
    known = safe.known;
    required = λ r o. cc o;
    closed = λ o. refl;
  }

  auth-IsGuarded :
      {peer : Text} {opened : Bool} {s t : Session}
      → IsGuarded peer opened s
      → (t ≡ s)
        ⊎ ((mailbox : Text) × (t ≡ record s { authenticated = true; principal = some mailbox }))
      → IsGuarded peer opened t
  auth-IsGuarded {peer} {opened} safe (inl e) = subst (IsGuarded peer opened) (sym e) safe
  auth-IsGuarded {peer} {opened} safe (inr (mailbox, e)) =
      subst (IsGuarded peer opened) (sym e) (record {
        peer_kept = safe.peer_kept;
        known = ((λ q n. cc n), λ n. refl);
        required = λ r o. refl;
        closed = safe.closed;
      })

  begin-IsGuarded :
      {peer : Text} {opened : Bool} {s t : Session} (sender : Text) (r : Option Error × Session)
      → IsGuarded peer opened s
      → r ≡ (none, t)
      → Begun srv cfg sender s r
      → (requires_authentication cfg ≡ true → s.authenticated ≡ true)
      → IsGuarded peer true t
  begin-IsGuarded sender r safe h (inl (n, _)) auth = absurd (n (ap (λ x. x.0) h))
  begin-IsGuarded {peer} sender r safe h (inr (_, e)) auth =
      subst (IsGuarded peer true) (sym e ∙ ap (λ x. x.1) h) (record {
        peer_kept = safe.peer_kept;
        known = safe.known;
        required = λ q o. auth q;
        closed = λ o. refl;
      })

  refused-IsGuarded :
      {peer : Text} {opened : Bool} {s t : Session} (sender : Text) (e : Error)
      (r : Option Error × Session)
      → IsGuarded peer opened s
      → r ≡ (some e, t)
      → Begun srv cfg sender s r
      → IsGuarded peer opened t
  refused-IsGuarded {peer} {opened} sender e r safe h (inl (_, same)) =
      subst (IsGuarded peer opened) (sym same ∙ ap (λ x. x.1) h) safe
  refused-IsGuarded sender e r safe h (inr (n, _)) = absurd (cc (n, ap (λ x. x.0) h))

  named-IsGuarded :
      {peer : Text} {s t : Session}
      → IsGuarded peer true s
      → (rs : List Recipient) × (t ≡ record s { recipients = rs })
      → IsGuarded peer true t
  named-IsGuarded {peer} safe (rs, e) = subst (IsGuarded peer true) (sym e) (record {
    peer_kept = safe.peer_kept;
    known = safe.known;
    required = safe.required;
    closed = λ o. cc o;
  })

  data-IsGuarded :
      {peer : Text} {s t : Session}
      → IsGuarded peer true s
      → (t ≡ s) ⊎ (t ≡ reset s)
      → IsGuarded peer false (reset t)
  data-IsGuarded {peer} safe (inl e) =
      subst (λ x. IsGuarded peer false (reset x)) (sym e) (reset-IsGuarded safe)
  data-IsGuarded {peer} safe (inr e) =
      subst (λ x. IsGuarded peer false (reset x)) (sym e) (reset-IsGuarded (reset-IsGuarded safe))

  -- Whatever the mail service answers, in every session that go-smtp reaches authentication comes
  -- with a principal, a transaction is open behind a login only where the configuration requires
  -- one, and recipients are named in an open transaction only.
  pub Reach-IsGuarded :
      {peer : Text} {opened : Bool} {s : Session} → Reach peer opened s → IsGuarded peer opened s
  Reach-IsGuarded start = record {
    peer_kept = refl;
    known = ((λ e. cc e), λ n. absurd (n refl));
    required = λ r o. cc o;
    closed = λ o. refl;
  }
  Reach-IsGuarded (signs_in {s = s} identity username password e w before h) =
      auth-IsGuarded (Reach-IsGuarded before) (
        subst
          (λ x.
            (x ≡ s)
            ⊎ ((mailbox : Text) × (x
                  ≡ record s { authenticated = true; principal = some mailbox })))
          (ap (λ x. x.1) h) (auth-cases srv cfg identity username password s w))
  Reach-IsGuarded (mail_accepted {s = s} sender w before h) =
      let (begun, auth) = mail-cases srv cfg sender s w in
      begin-IsGuarded sender _ (Reach-IsGuarded before) h begun (auth (ap (λ x. x.0) h))
  Reach-IsGuarded (mail_refused {s = s} sender e w before h) =
      refused-IsGuarded sender e _ (Reach-IsGuarded before) h (mail-cases srv cfg sender s w).0
  Reach-IsGuarded (names {s = s} given e w before h) = named-IsGuarded (Reach-IsGuarded before) (
      subst (λ x. (rs : List Recipient) × (x ≡ record s { recipients = rs })) (ap (λ x. x.1) h)
        (rcpt-cases srv cfg given s w))
  Reach-IsGuarded (data_done {s = s} raw e w before h) =
      data-IsGuarded (Reach-IsGuarded before)
        (subst (λ x. (x ≡ s) ⊎ (x ≡ reset s)) (ap (λ x. x.1) h) (data-cases srv cfg raw s w))
  Reach-IsGuarded (resets before) = reset-IsGuarded (Reach-IsGuarded before)
