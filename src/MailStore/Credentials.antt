-- ===== src/MailStore/Credentials.antt =====
-- App passwords of mail clients: internal/service/mail_credentials.go.
pub mod Scope
use elec_postal.Base.{
  Bool, false, not, ◌&&◌, ◌||◌, Option, none, some, List, [], ◌∷◌, ◌++◌, if◌then◌else◌,
}
use elec_postal.Text.{Text, codes, text_eq, is_nil, to_lower, trim_space, contains_text, member}

-- `MailProtocolCredential`: the scopes stand for their JSON text, none where it cannot be read; a
-- credential is revoked by its deletion, which queries pass over
pub record Credential : Type 0 where
  pub credential_id : Text
  pub of_mailbox : Text
  pub hash : Text
  pub protocols : Option (List Text)
  pub legacy : Bool
  pub revoked : Bool

-- the columns of `Mailbox` that a login reads
pub record MailboxRow : Type 0 where
  pub mailbox_id : Text
  pub account_id : Text
  pub address : Text

pub record ProtocolPrincipal : Type 0 where
  pub principal_account : Text
  pub principal_mailbox : Text
  pub principal_address : Text
  pub principal_credential : Text

pub data Refusal : Type 0 where
  unsupported forbidden : Refusal

pub data Login : Type 0 where
  granted : ProtocolPrincipal → Login
  refused : Refusal → Login

abbrev pub valid_mail_protocols : List Text
valid_mail_protocols = codes "smtp" ∷ codes "imap" ∷ codes "pop3" ∷ []

-- `containsProtocol`
abbrev pub contains_protocol : List Text → Text → Bool
contains_protocol protocols target = member target protocols

-- none is an unsupported protocol; `seen` are the protocols that are kept already
unfoldable pub normalize_protocols : List Text → List Text → Option (List Text)
unfolding member to_lower trim_space
normalize_protocols seen [] = some []
normalize_protocols seen (raw ∷ input) =
    let protocol = to_lower (trim_space raw) in
    let again = normalize_protocols seen input in
    let more = normalize_protocols (protocol ∷ seen) input in
    if not (member protocol valid_mail_protocols)
    then none
    else if member protocol seen
    then again
    else elim more [ none ↦ none | some ps ↦ some (protocol ∷ ps) ]

abbrev at_least_one : Option (List Text) → Option (List Text)
at_least_one none = none
at_least_one (some []) = none
at_least_one (some (p ∷ ps)) = some (p ∷ ps)

unfoldable pub normalize_mail_protocols : List Text → Option (List Text)
unfolding normalize_protocols
normalize_mail_protocols input = at_least_one (normalize_protocols [] input)

unfoldable pub find_mailbox : Text → List MailboxRow → Option MailboxRow
unfolding text_eq
find_mailbox id [] = none
find_mailbox id (m ∷ ms) =
    let rest = find_mailbox id ms in if text_eq m.mailbox_id id then some m else rest

abbrev has_at : Text → Bool
has_at address = contains_text address (codes "@")

-- `normalizeFromAddress`, with the domain of the configuration
unfoldable pub normalize_from_address : Text → Text → Text
unfolding trim_space to_lower contains_text
normalize_from_address domain raw =
    let address = trim_space (to_lower raw) in
    if is_nil address || is_nil domain || has_at address
    then address
    else address ++ codes "@" ++ domain

-- Package bcrypt compares hashes; `domain` is the one of the configuration.
module _ (compare_hash : Text → Text → Bool) (domain : Text) where
  abbrev pub in_scope : Text → Option (List Text) → Bool
  in_scope protocol none = false
  in_scope protocol (some protocols) = contains_protocol protocols protocol

  -- the query and the tests of the loop for one credential
  abbrev pub accepts : Text → Text → Text → Credential → Bool
  accepts mailbox secret protocol c =
      text_eq c.of_mailbox mailbox
      && (not c.legacy
          && (not c.revoked && (in_scope protocol c.protocols && compare_hash c.hash secret)))

  abbrev pub principal_of : MailboxRow → Credential → ProtocolPrincipal
  principal_of m c = record {
    principal_account = m.account_id;
    principal_mailbox = m.mailbox_id;
    principal_address = normalize_from_address domain m.address;
    principal_credential = c.credential_id;
  }

  unfoldable pub try_credentials : MailboxRow → Text → Text → Text → List Credential → Login
  unfolding text_eq member
  try_credentials m mailbox secret protocol [] = refused forbidden
  try_credentials m mailbox secret protocol (c ∷ cs) =
      let rest = try_credentials m mailbox secret protocol cs in
      if accepts mailbox secret protocol c then granted (principal_of m c) else rest

  abbrev pub with_mailbox : Text → Text → Text → List Credential → Option MailboxRow → Login
  with_mailbox mailbox secret protocol cs none = refused forbidden
  with_mailbox mailbox secret protocol cs (some m) = try_credentials m mailbox secret protocol cs

  unfoldable pub authenticate_mail_protocol :
      List MailboxRow → List Credential → Text → Text → Text → Login
  unfolding find_mailbox try_credentials to_lower trim_space member
  authenticate_mail_protocol ms cs mailbox secret raw =
      let protocol = to_lower (trim_space raw) in
      if not (member protocol valid_mail_protocols)
      then refused unsupported
      else if is_nil (trim_space secret)
      then refused forbidden
      else with_mailbox mailbox secret protocol cs (find_mailbox mailbox ms)
