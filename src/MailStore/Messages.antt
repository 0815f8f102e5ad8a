-- ===== src/MailStore/Messages.antt =====
-- What protocol clients do to messages, in internal/service/protocol_store.go: move, copy, store
-- flags, append.
use elec_postal.Base.{ℕ, ◌+◌, Bool, ◌&&◌, Option, none, some, List, [], ◌∷◌, ltb, if◌then◌else◌}
use elec_postal.Text.{Text, codes, text_eq, member}
use elec_postal.MailStore.Tables.{
  Folder, Membership, EmailRow, ok, Tx, ◌>>=◌, ◌>>◌, pure, Done, folder_named, rows_in, delete_rows,
  selected, create_row, save_folder, save_row, next32, next64,
}
use elec_postal.MailStore.Flags.{merge_flags}
use elec_postal.MailStore.Folders.{Fresh, http_folder_for_protocol_name, ensure_protocol_folders}

abbrev pub with_no_ids : {A : Type 0} → List Text → A → A → A
with_no_ids [] x y = x
with_no_ids (id ∷ ids) x y = y

-- the row of a message, filed into a folder under the next UID and mod-sequence
abbrev pub filed : Folder → Membership → Membership
filed target row = record row {
  folder_id = target.id;
  uid = target.next_uid;
  mod_seq = next64 target.highest_mod_seq;
}

abbrev pub bumped : Folder → Folder
bumped target = record target {
  next_uid = next32 target.next_uid;
  highest_mod_seq = next64 target.highest_mod_seq;
}

-- the loop over the rows; the folder comes back with its counters advanced
unfoldable pub create_rows : Folder → List Membership → Tx Folder
unfolding create_row next32 next64
create_rows target [] db = ok target db
create_rows target (row ∷ rows) db =
    (create_row (filed target row) >> create_rows (bumped target) rows) db

abbrev pub refiled : Text → ℕ → EmailRow → EmailRow
refiled folder now email =
    if text_eq folder (codes "trash")
    then record email { folder = folder; trashed_at = some now }
    else if text_eq folder (codes "spam")
    then record email { folder = folder; spam_at = some now }
    else record email { folder = folder; trashed_at = none }

unfoldable pub refile_rows : Text → List Text → Text → ℕ → List EmailRow → List EmailRow
unfolding member
refile_rows mailbox ids folder now [] = []
refile_rows mailbox ids folder now (e ∷ es) =
    (if text_eq e.mailbox mailbox && member e.row_id ids then refiled folder now e else e)
    ∷ refile_rows mailbox ids folder now es

unfoldable pub count_rows : Text → List Text → List EmailRow → ℕ
unfolding member
count_rows mailbox ids [] = 0
count_rows mailbox ids (e ∷ es) =
    let n = count_rows mailbox ids es in
    if text_eq e.mailbox mailbox && member e.row_id ids then n + 1 else n

-- the number of rows that changed
unfoldable pub update_email_folder : Text → List Text → Text → ℕ → Tx ℕ
unfolding refile_rows count_rows
update_email_folder mailbox ids folder now db = with_no_ids ids (ok 0 db) (
    ok (count_rows mailbox ids db.emails)
      (record db { emails = refile_rows mailbox ids folder now db.emails }))

abbrev pub email_ids : List Membership → List Text
email_ids [] = []
email_ids (m ∷ ms) = m.email_id ∷ email_ids ms

abbrev pub update_http : Text → List Text → ℕ → Option Text → Tx Done
update_http mailbox ids now none = pure tt
update_http mailbox ids now (some folder) =
    update_email_folder mailbox ids folder now >>= λ count. pure tt

-- the transaction behind the lookups of the two folders
unfoldable pub move_between :
    Text → Text → List Text → ℕ → Folder → Folder → List Membership → Tx Done
unfolding create_rows delete_rows save_folder update_email_folder http_folder_for_protocol_name
move_between mailbox to_name ids now source target rows = do
  filed_target ← create_rows target rows
  delete_rows (selected source.id ids)
  save_folder (record source { highest_mod_seq = next64 source.highest_mod_seq })
  save_folder filed_target
  update_http mailbox (email_ids rows) now (http_folder_for_protocol_name to_name)

unfoldable pub move_protocol_messages : Text → Text → Text → List Text → ℕ → Tx Done
unfolding folder_named rows_in move_between
move_protocol_messages mailbox from_name to_name ids now = do
  source ← folder_named mailbox from_name
  target ← folder_named mailbox to_name
  rows ← (λ db. ok (rows_in source.id ids db) db)
  move_between mailbox to_name ids now source target rows

unfoldable pub copy_protocol_messages : Text → Text → Text → List Text → Tx Done
unfolding folder_named rows_in create_rows save_folder
copy_protocol_messages mailbox from_name to_name ids = do
  source ← folder_named mailbox from_name
  target ← folder_named mailbox to_name
  rows ← (λ db. ok (rows_in source.id ids db) db)
  filed_target ← create_rows target rows
  save_folder filed_target

pub record StoreResult : Type 0 where
  pub stored_id : Text
  pub stored_uid : ℕ
  pub stored_flags : List Text
  pub stored_mod_seq : ℕ

module _ (flags : List Text) (mode : Text) (unchanged_since : ℕ) where
  abbrev pub flagged : Folder → Membership → Membership
  flagged folder row = record row {
    flags = merge_flags row.flags flags mode;
    mod_seq = next64 folder.highest_mod_seq;
  }

  abbrev pub stored : Membership → StoreResult
  stored row = record {
    stored_id = row.email_id;
    stored_uid = row.uid;
    stored_flags = row.flags;
    stored_mod_seq = row.mod_seq;
  }

  -- `UNCHANGEDSINCE` passes over a row
  abbrev pub is_stale : Membership → Bool
  is_stale row = ltb 0 unchanged_since && ltb unchanged_since row.mod_seq

  -- the body of the loop for a row, and the rest of the loop
  unfoldable pub flag_one :
      (Folder → Tx (Folder × List StoreResult))
      → Folder
      → Membership
      → Tx (Folder × List StoreResult)
  unfolding save_row merge_flags next64
  flag_one later folder row = do
    save_row (flagged folder row)
    rest ← later (record folder { highest_mod_seq = next64 folder.highest_mod_seq })
    pure (rest.0, stored (flagged folder row) ∷ rest.1)

  unfoldable pub flag_rows : Folder → List Membership → Tx (Folder × List StoreResult)
  unfolding flag_one
  flag_rows folder [] = pure (folder, [])
  flag_rows folder (row ∷ rows) =
      if is_stale row then flag_rows folder rows else flag_one (λ f. flag_rows f rows) folder row

  unfoldable pub store_protocol_flags : Text → Text → List Text → Tx (List StoreResult)
  unfolding folder_named rows_in flag_rows save_folder
  store_protocol_flags mailbox folder_name ids = do
    folder ← folder_named mailbox folder_name
    rows ← (λ db. ok (rows_in folder.id ids db) db)
    done ← flag_rows folder rows
    save_folder done.0
    pure done.1

-- the row of a new membership
abbrev pub membership_of : Folder → Text → List Text → Membership
membership_of folder email flags = record {
  folder_id = folder.id;
  email_id = email;
  uid = folder.next_uid;
  flags = flags;
  mod_seq = next64 folder.highest_mod_seq;
}

-- a new membership with these flags; the UID and mod-sequence that it got
unfoldable pub add_membership : Folder → Text → List Text → Tx (ℕ × ℕ)
unfolding create_row save_folder next32 next64
add_membership folder email flags = do
  create_row (membership_of folder email flags)
  save_folder (bumped folder)
  pure (folder.next_uid, next64 folder.highest_mod_seq)

unfoldable pub append_folder_membership : Fresh → Text → Text → Text → List Text → Tx (ℕ × ℕ)
unfolding ensure_protocol_folders folder_named merge_flags add_membership
append_folder_membership fresh mailbox folder_name email flags = do
  ensure_protocol_folders fresh mailbox
  folder ← folder_named mailbox folder_name
  add_membership folder email (merge_flags [] flags (codes "add"))

unfoldable pub add_folder_membership : Fresh → Text → Text → Text → Tx Done
unfolding ensure_protocol_folders folder_named add_membership
add_folder_membership fresh mailbox folder_name email = do
  ensure_protocol_folders fresh mailbox
  folder ← folder_named mailbox folder_name
  add_membership folder email []
  pure tt
