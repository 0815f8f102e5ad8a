-- ===== src/MailStore/Relocation.antt =====
-- Messages that change folder by the HTTP side, and messages that go, in
-- internal/service/protocol_store.go, with `purgeEmailRows` of email.go.
use elec_postal.Base.{
  ℕ, ◌+◌, Bool, true, false, not, ◌&&◌, ◌||◌, Option, none, some, List, [], ◌∷◌, if◌then◌else◌,
}
use elec_postal.Text.{Text, codes, text_eq, member}
use elec_postal.MailStore.Tables.{
  Folder, Membership, EmailRow, not_found, ok, err, Tx, ◌>>=◌, ◌>>◌, pure, Done, folder_named,
  keep_rows, rows_in, delete_rows,
}
use elec_postal.MailStore.Flags.{email_folder_flags}
use elec_postal.MailStore.Folders.{
  Fresh, protocol_folder_name, is_trash_folder_name, ensure_protocol_folders,
}
use elec_postal.MailStore.Messages.{
  with_no_ids, add_membership, update_email_folder, move_protocol_messages,
}

-- `SELECT id ... WHERE mailbox_id = ?`
unfoldable pub folder_ids : Text → List Folder → List Text
unfolding text_eq
folder_ids mailbox [] = []
folder_ids mailbox (f ∷ fs) =
    let rest = folder_ids mailbox fs in if text_eq f.mailbox_id mailbox then f.id ∷ rest else rest

-- the memberships of a message in some folders
abbrev pub of_message : Text → List Text → Membership → Bool
of_message email ids m = text_eq m.email_id email && member m.folder_id ids

unfoldable pub is_present : Text → List Membership → Bool
is_present target [] = false
is_present target (m ∷ ms) = text_eq m.folder_id target || is_present target ms

unfoldable pub displaced_from : Text → List Membership → List Text
displaced_from target [] = []
displaced_from target (m ∷ ms) =
    let rest = displaced_from target ms in
    if text_eq m.folder_id target then rest else m.folder_id ∷ rest

-- The flags of the first row; their JSON text is never empty.
abbrev pub carried : EmailRow → List Membership → List Text
carried email [] = email_folder_flags email
carried email (m ∷ ms) = m.flags

-- `UPDATE mail_folders SET highest_mod_seq = highest_mod_seq + 1 WHERE id IN ?`
unfoldable pub advance_folders : List Text → List Folder → List Folder
unfolding member
advance_folders ids [] = []
advance_folders ids (f ∷ fs) =
    (if member f.id ids then record f { highest_mod_seq = f.highest_mod_seq + 1 } else f)
    ∷ advance_folders ids fs

unfoldable pub take_out : Text → List Text → Tx Done
unfolding delete_rows advance_folders
take_out email ids = do
  delete_rows (of_message email ids)
  (λ db. ok tt (record db { folders = advance_folders ids db.folders }))

unfoldable pub put_in : EmailRow → Folder → List Membership → Bool → Tx Done
unfolding add_membership
put_in email target rows true = pure tt
put_in email target rows false =
    add_membership target email.row_id (carried email rows) >>= λ numbers. pure tt

unfoldable pub relocate_rows : EmailRow → Folder → List Membership → Tx Done
unfolding is_present displaced_from take_out put_in
relocate_rows email target rows = do
  with_no_ids (displaced_from target.id rows) (pure tt)
      (take_out email.row_id (displaced_from target.id rows))
  put_in email target rows (is_present target.id rows)

unfoldable pub relocate_folder_membership : Fresh → EmailRow → Text → Tx Done
unfolding ensure_protocol_folders folder_named folder_ids keep_rows relocate_rows
relocate_folder_membership fresh email protocol_folder = do
  ensure_protocol_folders fresh email.mailbox
  target ← folder_named email.mailbox protocol_folder
  rows ← (λ db.
      ok (keep_rows (of_message email.row_id (folder_ids email.mailbox db.folders)) db.memberships)
        db)
  relocate_rows email target rows

unfoldable pub find_email : Text → Text → List EmailRow → Option EmailRow
unfolding text_eq
find_email account id [] = none
find_email account id (e ∷ es) =
    let rest = find_email account id es in
    if text_eq e.row_id id && text_eq e.account account then some e else rest

abbrev move_found : Fresh → Text → Option EmailRow → Tx ℕ
move_found fresh folder none = pure 0
move_found fresh folder (some email) = do
  relocate_folder_membership fresh email (protocol_folder_name folder)
  update_email_folder email.mailbox (email.row_id ∷ []) folder fresh.now

unfoldable pub move_email_folder : Fresh → Text → Text → Text → Tx ℕ
unfolding find_email relocate_folder_membership protocol_folder_name update_email_folder
move_email_folder fresh account id folder db =
    move_found fresh folder (find_email account id db.emails) db

unfoldable pub folders_of : List Membership → List Text
folders_of [] = []
folders_of (m ∷ ms) = m.folder_id ∷ folders_of ms

unfoldable pub drop_email : Text → List EmailRow → List EmailRow
unfolding text_eq
drop_email id [] = []
drop_email id (e ∷ es) =
    let rest = drop_email id es in if text_eq e.row_id id then rest else e ∷ rest

abbrev pub of_email : Text → Membership → Bool
of_email id m = text_eq m.email_id id

-- `purgeEmailRows` on the tables that are modelled
unfoldable pub purge_email_rows : Text → Tx Done
unfolding keep_rows folders_of advance_folders drop_email
purge_email_rows id db =
    let rows = keep_rows (of_email id) db.memberships in
    ok tt (record db {
      memberships = keep_rows (λ m. not (of_email id m)) db.memberships;
      folders = advance_folders (folders_of rows) db.folders;
      emails = drop_email id db.emails;
    })

unfoldable pub purge_rows : List Membership → Tx Done
unfolding purge_email_rows
purge_rows [] = pure tt
purge_rows (m ∷ ms) = purge_email_rows m.email_id >> purge_rows ms

unfoldable pub mailbox_exists : Text → Tx Done
unfolding member
mailbox_exists mailbox db = if member mailbox db.mailboxes then ok tt db else err not_found

unfoldable pub purge_protocol_messages : Text → Text → List Text → Tx Done
unfolding mailbox_exists folder_named rows_in purge_rows
purge_protocol_messages mailbox folder_name ids = with_no_ids ids (pure tt) (do
  mailbox_exists mailbox
  folder ← folder_named mailbox folder_name
  rows ← (λ db. ok (rows_in folder.id ids db) db)
  purge_rows rows)

unfoldable pub delete_protocol_messages : Text → Text → List Text → ℕ → Tx Done
unfolding is_trash_folder_name purge_protocol_messages move_protocol_messages
delete_protocol_messages mailbox folder_name ids now = with_no_ids ids (pure tt) (
    if is_trash_folder_name folder_name
    then purge_protocol_messages mailbox folder_name ids
    else move_protocol_messages mailbox folder_name (codes "Trash") ids now)
