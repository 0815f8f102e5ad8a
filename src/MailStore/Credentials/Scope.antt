-- ===== src/MailStore/Credentials/Scope.antt =====
-- Who a mail client may log in as: internal/service/mail_credentials.go.
use elec_postal.Base.{
  ◌≡◌, ◌≢◌, ◌↔◌, refl, sym, Bool, true, false, Option, none, some, List, [], ◌∷◌, arith, Bool-cases,
  Option-cases, inl, inr, ◌⊎◌, Any,
}
use elec_postal.Text.{Text, codes, text_eq, text_eq_iff, nil-cases, to_lower, trim_space, member}
use elec_postal.MailStore.Credentials.{
  Credential, MailboxRow, ProtocolPrincipal, Login, granted, refused, unsupported, forbidden,
  valid_mail_protocols, find_mailbox, in_scope, accepts, principal_of, try_credentials,
  with_mailbox, normalize_from_address, authenticate_mail_protocol,
}

-- the three protocols with app passwords
abbrev pub IsMailProtocol : Text → Type 0
IsMailProtocol t = (t ≡ codes "smtp") ⊎ ((t ≡ codes "imap") ⊎ (t ≡ codes "pop3"))

member_iff : (t : Text) (us : List Text) → (member t us ≡ true) ↔ Any (λ u. t ≡ u) us
unfolding member
member_iff t [] = ((λ h. absurd (cc h)), (λ h. elim h [ ]))
member_iff t (u ∷ us) = elim (Bool-cases (text_eq t u)) [
  | inl e ↦ ((λ h. inl ((text_eq_iff t u).0 e)), (λ h. ground (arith, e)))
  | inr e ↦ (
    (λ h. inr ((member_iff t us).0 (ground (arith, e, h)))),
    (λ h. elim h [
      | inl same ↦ absurd (ground (arith, e, (text_eq_iff t u).1 same))
      | inr later ↦ ground (arith, e, (member_iff t us).1 later)
    ]),
  )
]

valid_mail_protocols_iff : (t : Text) → (member t valid_mail_protocols ≡ true) ↔ IsMailProtocol t
valid_mail_protocols_iff t = (
  (λ h. elim ((member_iff t valid_mail_protocols).0 h) [
    | inl e ↦ inl e
    | inr (inl e) ↦ inr (inl e)
    | inr (inr (inl e)) ↦ inr (inr e)
    | inr (inr (inr e)) ↦ elim e [ ]
  ]),
  (λ h.
      (member_iff t valid_mail_protocols).1
        (elim h [ inl e ↦ inl e | inr (inl e) ↦ inr (inl e) | inr (inr e) ↦ inr (inr (inl e)) ])),
)

find_mailbox-id :
    (id : Text) (ms : List MailboxRow) (m : MailboxRow)
    → find_mailbox id ms ≡ some m
    → Any (λ x. m ≡ x) ms × (m.mailbox_id ≡ id)
unfolding find_mailbox
find_mailbox-id id [] m h = absurd (cc h)
find_mailbox-id id (x ∷ ms) m h = elim (Bool-cases (text_eq x.mailbox_id id)) [
  | inl e ↦
      let same : x ≡ m = ground (arith, e, h) in
      (inl (sym same), rw same at ((text_eq_iff x.mailbox_id id).0 e))
  | inr e ↦ let (here, same) = find_mailbox-id id ms m (ground (arith, e, h)) in (inr here, same)
]

find_mailbox-some :
    (id : Text) (ms : List MailboxRow)
    → Any (λ x. x.mailbox_id ≡ id) ms
    → (m : MailboxRow) × (find_mailbox id ms ≡ some m)
unfolding find_mailbox
find_mailbox-some id [] h = elim h [ ]
find_mailbox-some id (x ∷ ms) h = elim (Bool-cases (text_eq x.mailbox_id id)) [
  | inl e ↦ (x, ground (arith, e))
  | inr e ↦ elim h [
    | inl same ↦ absurd (ground (arith, e, (text_eq_iff x.mailbox_id id).1 same))
    | inr later ↦ let (m, p) = find_mailbox-some id ms later in (m, ground (arith, e, p))
  ]
]

module _ (compare_hash : Text → Text → Bool) (domain : Text) where
  -- The credential is one of the mailbox, neither a legacy nor a revoked one, its scopes can be read
  -- and name the protocol, and the secret has its hash.
  abbrev pub Opens : Text → Text → Text → Credential → Type 0
  Opens mailbox secret protocol c =
      (c.of_mailbox ≡ mailbox)
      × (c.legacy ≡ false)
      × (c.revoked ≡ false)
      × ((scopes : List Text) × (c.protocols ≡ some scopes) × Any (λ p. protocol ≡ p) scopes)
      × (compare_hash c.hash secret ≡ true)

  -- The principal is the owner of the mailbox row, under its identifiers.
  abbrev pub IsOwner : ProtocolPrincipal → MailboxRow → Credential → Type 0
  IsOwner p m c =
      (p.principal_account ≡ m.account_id)
      × (p.principal_mailbox ≡ m.mailbox_id)
      × (p.principal_address ≡ normalize_from_address domain m.address)
      × (p.principal_credential ≡ c.credential_id)

  in_scope_iff :
      (protocol : Text) (o : Option (List Text))
      → (in_scope compare_hash domain protocol o ≡ true)
        ↔ ((scopes : List Text) × (o ≡ some scopes) × Any (λ p. protocol ≡ p) scopes)
  in_scope_iff protocol none =
      ((λ h. absurd (cc h)), (λ h. let (scopes, e, here) = h in absurd (cc e)))
  in_scope_iff protocol (some ps) = (
    (λ h. (ps, refl, (member_iff protocol ps).0 h)),
    (λ h.
        let (scopes, e, here) = h in
        let same : scopes ≡ ps = cc e in (member_iff protocol ps).1 (rw same at here)),
  )

  accepts_iff :
      (mailbox secret protocol : Text) (c : Credential)
      → (accepts compare_hash domain mailbox secret protocol c ≡ true)
        ↔ Opens mailbox secret protocol c
  accepts_iff mailbox secret protocol c = (
    (λ h. (
      (text_eq_iff c.of_mailbox mailbox).0 (ground (arith, h)),
      ground (arith, h),
      ground (arith, h),
      (in_scope_iff protocol c.protocols).0 (ground (arith, h)),
      ground (arith, h),
    )),
    (λ h.
        let (of, current, kept, scope, matches) = h in
        let of' = (text_eq_iff c.of_mailbox mailbox).1 of in
        let scope' = (in_scope_iff protocol c.protocols).1 scope in
        ground (arith, of', current, kept, scope', matches)),
  )

  -- One of the credentials makes the principal, or none fits.
  try_credentials-cases :
      (m : MailboxRow) (mailbox secret protocol : Text) (cs : List Credential)
      → let login = try_credentials compare_hash domain m mailbox secret protocol cs in
        ((p : ProtocolPrincipal) × (c : Credential) × (login ≡ granted p)
          × Any (λ d. c ≡ d) cs
          × Opens mailbox secret protocol c
          × IsOwner p m c)
        ⊎ ((login ≡ refused forbidden) × ¬ Any (Opens mailbox secret protocol) cs)
  unfolding try_credentials
  try_credentials-cases m mailbox secret protocol [] = inr (refl, λ h. elim h [ ])
  try_credentials-cases m mailbox secret protocol (c ∷ cs) =
      let opens_iff = accepts_iff mailbox secret protocol c in
      elim (Bool-cases (accepts compare_hash domain mailbox secret protocol c)) [
        | inl e ↦ inl (
          principal_of compare_hash domain m c,
          c,
          rw e refl,
          inl refl,
          opens_iff.0 e,
          (refl, refl, refl, refl),
        )
        | inr e ↦ elim (try_credentials-cases m mailbox secret protocol cs) [
          | inl (p, d, q, here, opens, owner) ↦ inl (p, d, rw e q, inr here, opens, owner)
          | inr (q, closed) ↦ inr (
            rw e q,
            λ h. elim h [
              | inl opens ↦ absurd (cc (e, opens_iff.1 opens))
              | inr later ↦ closed later
            ],
          )
        ]
      ]

  -- A row of the mailbox and one of its credentials justify a principal.
  abbrev pub Justifies :
      List MailboxRow → List Credential → Text → Text → Text → ProtocolPrincipal → Type 0
  Justifies ms cs mailbox secret protocol p =
      (m : MailboxRow) × (c : Credential) × Any (λ x. m ≡ x) ms
      × (m.mailbox_id ≡ mailbox)
      × Any (λ d. c ≡ d) cs
      × Opens mailbox secret protocol c
      × IsOwner p m c

  -- What a login for a supported protocol with a secret that is not blank answers.
  abbrev Answers : List MailboxRow → List Credential → Text → Text → Text → Login → Type 0
  Answers ms cs mailbox secret protocol login =
      ((p : ProtocolPrincipal) × (login ≡ granted p) × Justifies ms cs mailbox secret protocol p)
      ⊎ ((login ≡ refused forbidden)
          × ¬ (Any (λ m. m.mailbox_id ≡ mailbox) ms × Any (Opens mailbox secret protocol) cs))

  with_mailbox-Answers :
      (ms : List MailboxRow) (cs : List Credential) (mailbox secret protocol : Text)
      → Answers ms cs mailbox secret protocol
          (with_mailbox compare_hash domain mailbox secret protocol cs (find_mailbox mailbox ms))
  with_mailbox-Answers ms cs mailbox secret protocol =
      elim (Option-cases (find_mailbox mailbox ms)) [
        | inl e ↦ rw e (
            inr (
              refl,
              λ h. let (m, found) = find_mailbox-some mailbox ms h.0 in absurd (cc (e, found)),
            ))
        | inr (m, e) ↦
            let (listed, same) = find_mailbox-id mailbox ms m e in
            rw e (elim (try_credentials-cases m mailbox secret protocol cs) [
              | inl (p, c, q, here, opens, owner) ↦
                  inl (p, q, (m, c, listed, same, here, opens, owner))
              | inr (q, closed) ↦ inr (q, λ h. closed h.1)
            ])
      ]

  -- AuthenticateMailProtocol gives one of three answers. It admits a client only for one of the
  -- three protocols, with a secret that is not blank, as the mailbox it named, and by a listed
  -- credential of that mailbox, neither a legacy nor a revoked one, whose scopes name the protocol
  -- and whose hash is the secret's; the principal has the account, the identifier and the address of
  -- the mailbox's row and the identifier of the credential. It calls a protocol unsupported only if
  -- it is none of the three. And it forbids a login only if the secret is blank or there is no such
  -- row or no such credential.
  pub authenticate_mail_protocol-cases :
      (ms : List MailboxRow) (cs : List Credential) (mailbox secret raw : Text)
      → let login = authenticate_mail_protocol compare_hash domain ms cs mailbox secret raw in
        let protocol = to_lower (trim_space raw) in
        ((p : ProtocolPrincipal) × (login ≡ granted p)
          × IsMailProtocol protocol
          × (trim_space secret ≢ [])
          × Justifies ms cs mailbox secret protocol p)
        ⊎ (((login ≡ refused unsupported) × ¬ IsMailProtocol protocol)
            ⊎ ((login ≡ refused forbidden)
                × IsMailProtocol protocol
                × ¬ (
                    (trim_space secret ≢ [])
                    × Any (λ m. m.mailbox_id ≡ mailbox) ms
                    × Any (Opens mailbox secret protocol) cs)))
  unfolding authenticate_mail_protocol
  authenticate_mail_protocol-cases ms cs mailbox secret raw =
      let protocol = to_lower (trim_space raw) in
      let named_iff = valid_mail_protocols_iff protocol in
      elim (Bool-cases (member protocol valid_mail_protocols)) [
        | inr e ↦ rw e (inr (inl (refl, λ h. absurd (cc (e, named_iff.1 h)))))
        | inl e ↦ elim (nil-cases (trim_space secret)) [
          | inl (empty, blank) ↦ rw (e, blank) (inr (inr (refl, named_iff.0 e, λ h. h.0 empty)))
          | inr (solid, given) ↦
              rw (e, given)
                (elim (with_mailbox-Answers ms cs mailbox secret protocol) [
                  | inl (p, q, reason) ↦ inl (p, q, named_iff.0 e, solid, reason)
                  | inr (q, closed) ↦
                      inr (inr (q, named_iff.0 e, λ (given', row, opens). closed (row, opens)))
                ])
        ]
      ]
