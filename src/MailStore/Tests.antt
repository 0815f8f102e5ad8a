-- ===== src/MailStore/Tests.antt =====
-- The mail store with two mailboxes: operations and the theorems about them.
use elec_postal.Base.{
  ℕ, List, ◌≡◌, ◌≢◌, ◌⊎◌, refl, true, false, none, some, [], ◌∷◌, arith, All, Any,
}
use elec_postal.Text.{Text, codes, trim_space, to_lower, text_eq, member}
use elec_postal.MailStore.Tables.{Folder, Membership, EmailRow, Db, ok, find_folder}
use elec_postal.MailStore.Flags.{merge_flags}
use elec_postal.MailStore.Flags.Laws.{IsSorted, merged, merge_flags_lem}
use elec_postal.MailStore.Folders.{Fresh, new_folder, ensure_protocol_folders}
use elec_postal.MailStore.Keywords.{Tags, carries, normalize_keywords, set_protocol_keywords}
use elec_postal.MailStore.Keywords.Laws.{concerns, IsTagged, set_protocol_keywords_lem}
use elec_postal.MailStore.Credentials.{
  Credential, MailboxRow, ProtocolPrincipal, granted, refused, unsupported, forbidden,
  authenticate_mail_protocol, normalize_from_address, normalize_mail_protocols,
}
use elec_postal.MailStore.Credentials.Scope.{
  IsMailProtocol, Opens, Justifies, authenticate_mail_protocol-cases,
}
use elec_postal.MailStore.Messages.{move_protocol_messages, copy_protocol_messages}
use elec_postal.MailStore.Relocation.{folder_ids, relocate_folder_membership}
use elec_postal.MailStore.View.{holds}
use elec_postal.MailStore.View.Moves.{moved, move_protocol_messages-view}
use elec_postal.MailStore.View.Relocations.{relocated, relocate_folder_membership-view}
use elec_postal.MailStore.Counters.{IsConsistent}
use elec_postal.MailStore.Counters.Kept.{HasRoom}
use elec_postal.MailStore.Counters.Commits.{move_protocol_messages_commits}
use elec_postal.MailStore.Counters.Reach.{start, next, moves, Reach-IsConsistent}

abbrev folder_of : Text → Text → ℕ → Folder
folder_of key folder_name uid = record {
  id = key;
  mailbox_id = codes "m";
  name = folder_name;
  uid_validity = 1;
  next_uid = uid;
  highest_mod_seq = 5;
  special_use = [];
  subscribed = true;
}

abbrev inbox_key : Text
inbox_key = 0 ∷ []

abbrev trash_key : Text
trash_key = 1 ∷ []

abbrev inbox : Folder
inbox = folder_of inbox_key (codes "INBOX") 3

abbrev trash : Folder
trash = folder_of trash_key (codes "Trash") 8

abbrev row_of : Text → ℕ → Membership
row_of email n = record {
  folder_id = inbox_key;
  email_id = email;
  uid = n;
  flags = codes "\\Seen" ∷ [];
  mod_seq = n;
}

abbrev email_of : Text → EmailRow
email_of key = record {
  row_id = key;
  account = codes "a";
  mailbox = codes "m";
  folder = codes "inbox";
  is_read = true;
  is_starred = false;
  is_draft = false;
  trashed_at = none;
  spam_at = none;
}

abbrev db : Db
db = record {
  mailboxes = codes "m" ∷ [];
  folders = inbox ∷ trash ∷ [];
  memberships = row_of (codes "x") 1 ∷ row_of (codes "y") 2 ∷ [];
  emails = email_of (codes "x") ∷ email_of (codes "y") ∷ [];
}

abbrev after : Db
after = record db {
  folders =
      record inbox { highest_mod_seq = 6 }
      ∷ record trash { next_uid = 9; highest_mod_seq = 6 }
      ∷ [];
  memberships =
      record (row_of (codes "x") 8) { folder_id = trash_key; mod_seq = 6 }
      ∷ row_of (codes "y") 2
      ∷ [];
  emails =
      record (email_of (codes "x")) { folder = codes "trash"; trashed_at = some 77 }
      ∷ email_of (codes "y")
      ∷ [];
}

move_test :
    move_protocol_messages (codes "m") (codes "INBOX") (codes "Trash") (codes "x" ∷ []) 77 db
    ≡ ok tt after
unfolding move_protocol_messages
move_test = refl

merge_test :
    merge_flags (codes "b" ∷ codes "a" ∷ []) (codes "c" ∷ codes "b" ∷ []) (codes "add")
    ≡ codes "a" ∷ codes "b" ∷ codes "c" ∷ []
unfolding merge_flags
merge_test = refl

backslash_test : codes "\\Seen" ≡ 92 ∷ codes "Seen"
backslash_test = refl

move_protocol_messages-view_example :
    (source : Folder) × (target : Folder) × (find_folder (codes "m") (codes "INBOX") db.folders
      ≡ some source)
    × (find_folder (codes "m") (codes "Trash") db.folders ≡ some target)
    × ((f e : Text)
        → holds after.memberships f e
          ≡ moved source.id target.id (codes "x" ∷ []) (holds db.memberships) f e)
unfolding move_protocol_messages
move_protocol_messages-view_example =
    move_protocol_messages-view (codes "m") (codes "INBOX") (codes "Trash") (codes "x" ∷ []) 77 db
      tt after refl

abbrev copied_db : Db
copied_db = record db {
  folders = inbox ∷ record trash { next_uid = 9; highest_mod_seq = 6 } ∷ [];
  memberships =
      record (row_of (codes "x") 8) { folder_id = trash_key; mod_seq = 6 } ∷ db.memberships;
}

copy_test :
    copy_protocol_messages (codes "m") (codes "INBOX") (codes "Trash") (codes "x" ∷ []) db
    ≡ ok tt copied_db
unfolding copy_protocol_messages
copy_test = refl

abbrev fresh : Fresh
fresh = record { now = 100; folder_key = λ mailbox folder_name. 2 ∷ folder_name }

abbrev relocated_db : Db
relocated_db = record db {
  folders =
      new_folder fresh (codes "m") (codes "Archive") (codes "\\Archive")
      ∷ new_folder fresh (codes "m") (codes "Spam") (codes "\\Junk")
      ∷ new_folder fresh (codes "m") (codes "Drafts") (codes "\\Drafts")
      ∷ new_folder fresh (codes "m") (codes "Sent") (codes "\\Sent")
      ∷ record inbox { highest_mod_seq = 6 }
      ∷ record trash { next_uid = 9; highest_mod_seq = 6 }
      ∷ [];
  memberships =
      record (row_of (codes "x") 8) { folder_id = trash_key; mod_seq = 6 }
      ∷ row_of (codes "y") 2
      ∷ [];
}

relocate_folder_membership-view_example :
    (db1 : Db) × (target : Folder) × (ensure_protocol_folders fresh (codes "m") db ≡ ok tt db1)
    × (find_folder (codes "m") (codes "Trash") db1.folders ≡ some target)
    × ((f e : Text)
        → holds relocated_db.memberships f e
          ≡ relocated
              (codes "x")
              target.id
              (folder_ids (codes "m") db1.folders)
              (holds db.memberships)
              f
              e)
unfolding relocate_folder_membership
relocate_folder_membership-view_example =
    relocate_folder_membership-view fresh (email_of (codes "x")) (codes "Trash") db tt relocated_db
      refl

db-IsConsistent : IsConsistent db
db-IsConsistent = (
  ((λ e. (omega arith, omega arith)), ((λ e. (omega arith, omega arith)), tt)),
  (((λ e. absurd (cc e)), ((λ e. absurd (cc e)), tt)), tt),
)

db-HasRoom : HasRoom db
db-HasRoom = ((omega arith, omega arith), ((omega arith, omega arith), tt))

move_protocol_messages_commits_example :
    (db' : Db) × (move_protocol_messages
        (codes "m")
        (codes "INBOX")
        (codes "Trash")
        (codes "x" ∷ [])
        77
        db
      ≡ ok tt db')
unfolding find_folder text_eq
move_protocol_messages_commits_example =
    move_protocol_messages_commits (codes "m") (codes "INBOX") (codes "Trash") (codes "x" ∷ []) 77
      inbox trash db refl refl db-IsConsistent db-HasRoom (refl, (refl, tt)) (λ e h. refl)

Reach-IsConsistent_example : IsConsistent after
unfolding move_protocol_messages
Reach-IsConsistent_example =
    Reach-IsConsistent {db = db} {db' = after}
      (next fresh start
        (db-HasRoom, omega arith, λ mailbox folder_name. ((λ e. cc e), ((λ e. cc e), tt)))
        (moves (codes "m") (codes "INBOX") (codes "Trash") (codes "x" ∷ []) 77 refl))
      db-IsConsistent

merge_flags_lem_example :
    ((f : Text)
      → member f (merge_flags (codes "b" ∷ []) (codes "a" ∷ []) (codes "add"))
        ≡ merged (codes "b" ∷ []) (codes "a" ∷ []) (codes "add") f)
    × IsSorted (merge_flags (codes "b" ∷ []) (codes "a" ∷ []) (codes "add"))
merge_flags_lem_example = merge_flags_lem (codes "b" ∷ []) (codes "a" ∷ []) (codes "add")

abbrev tags : Tags
tags = record {
  labels =
      record { label_id = 7 ∷ []; owner = codes "a"; label_name = codes "Work"; is_deleted = false }
      ∷ [];
  mappings = (codes "x", 7 ∷ []) ∷ (codes "z", 7 ∷ []) ∷ [];
}

abbrev retagged : Tags
retagged =
    set_protocol_keywords (λ name. 8 ∷ name) (codes "a") (codes "x" ∷ []) (codes "home" ∷ [])
      (codes "replace") tags

replace_test : retagged.mappings ≡ (codes "x", 8 ∷ codes "home") ∷ (codes "z", 7 ∷ []) ∷ []
unfolding set_protocol_keywords
replace_test = refl

normalize_test :
    normalize_keywords (codes "Work" ∷ codes "work" ∷ codes "$Junk" ∷ codes " home" ∷ [])
    ≡ codes "Work" ∷ codes "home" ∷ []
unfolding normalize_keywords
normalize_test = refl

set_protocol_keywords_lem_example :
    ((e l : Text)
      → member e (codes "x" ∷ []) ≡ false
      → carries retagged.mappings e l ≡ carries tags.mappings e l)
    × (text_eq (codes "replace") (codes "remove") ≡ true
        → All
            (λ l.
              concerns (codes "a") (codes "home" ∷ []) l ≡ true
              → (e : Text) → member e (codes "x" ∷ []) ≡ true
              → carries retagged.mappings e l.label_id ≡ false)
            tags.labels)
    × ((name e : Text)
        → text_eq (codes "replace") (codes "remove") ≡ false
        → member name (codes "home" ∷ []) ≡ true
        → member e (codes "x" ∷ []) ≡ true
        → IsTagged (λ name. 8 ∷ name) (codes "a") (codes "x" ∷ []) retagged (to_lower name) e)
set_protocol_keywords_lem_example =
    set_protocol_keywords_lem (λ name. 8 ∷ name) (codes "a") (codes "x" ∷ []) (codes "home" ∷ [])
      (codes "replace") tags

abbrev credentials : List Credential
credentials =
    record {
      credential_id = codes "c";
      of_mailbox = codes "m";
      hash = codes "secret";
      protocols = some (codes "imap" ∷ []);
      legacy = false;
      revoked = false;
    }
    ∷ []

abbrev mailboxes : List MailboxRow
mailboxes = record { mailbox_id = codes "m"; account_id = codes "a"; address = codes "Ann" } ∷ []

abbrev principal : ProtocolPrincipal
principal = record {
  principal_account = codes "a";
  principal_mailbox = codes "m";
  principal_address = codes "ann@here.org";
  principal_credential = codes "c";
}

protocols_test :
    normalize_mail_protocols (codes "IMAP" ∷ codes " imap" ∷ codes "smtp" ∷ [])
    ≡ some (codes "imap" ∷ codes "smtp" ∷ [])
unfolding normalize_mail_protocols
protocols_test = refl

authenticate_mail_protocol-cases_example :
    let login =
      authenticate_mail_protocol text_eq
        (codes "here.org")
        mailboxes
        credentials
        (codes "m")
        (codes "secret")
        (codes "IMAP ") in
    let protocol = to_lower (trim_space (codes "IMAP ")) in
    ((p : ProtocolPrincipal) × (login ≡ granted p)
      × IsMailProtocol protocol
      × (trim_space (codes "secret") ≢ [])
      × Justifies text_eq
          (codes "here.org")
          mailboxes
          credentials
          (codes "m")
          (codes "secret")
          protocol
          p)
    ⊎ (((login ≡ refused unsupported) × ¬ IsMailProtocol protocol)
        ⊎ ((login ≡ refused forbidden)
            × IsMailProtocol protocol
            × ¬ (
                (trim_space (codes "secret") ≢ [])
                × Any (λ (m : MailboxRow). m.mailbox_id ≡ codes "m") mailboxes
                × Any
                    (Opens text_eq (codes "here.org") (codes "m") (codes "secret") protocol)
                    credentials)))
authenticate_mail_protocol-cases_example =
    authenticate_mail_protocol-cases text_eq (codes "here.org") mailboxes credentials (codes "m")
      (codes "secret") (codes "IMAP ")

login_test :
    authenticate_mail_protocol text_eq
      (codes "here.org")
      mailboxes
      credentials
      (codes "m")
      (codes "secret")
      (codes "IMAP ")
    ≡ granted principal
unfolding authenticate_mail_protocol normalize_from_address text_eq
login_test = refl
