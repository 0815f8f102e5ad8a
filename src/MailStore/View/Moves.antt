-- ===== src/MailStore/View/Moves.antt =====
-- What a move and a copy of a protocol client do to the view of the mail store.
use elec_postal.Base.{
  ℕ, ◌≡◌, refl, sym, ap, ◌∙◌, Bool, true, false, not, ◌&&◌, ◌||◌, Option, none, some, List, [], ◌∷◌,
  arith, if◌then◌else◌,
}
use elec_postal.Text.{Text, text_eq, text_eq_iff, member}
use elec_postal.MailStore.Tables.{
  Folder, Db, ok, Tx, then_tx, Done, find_folder, or_not_found, folder_named, rows_in, delete_rows,
  save_folder,
}
use elec_postal.MailStore.Folders.{http_folder_for_protocol_name}
use elec_postal.MailStore.Messages.{
  create_rows, email_ids, update_http, update_email_folder, move_between, move_protocol_messages,
  copy_protocol_messages,
}
use elec_postal.MailStore.View.{
  holds, then_tx-ok, ok-injective, holds-keep_rows, member-rows, create_rows-Created,
}

-- The query for a folder does not change the database.
pub found_step :
    {B : Type 0} (o : Option Folder) (db : Db) (k : Folder → Tx B) (b : B) (db' : Db)
    → then_tx (or_not_found o db) k ≡ ok b db'
    → (f : Folder) × (o ≡ some f) × (k f db ≡ ok b db')
found_step none db k b db' h = absurd (cc h)
found_step (some f) db k b db' h = (f, refl, h)

update_http-memberships :
    (mailbox : Text) (ids : List Text) (now : ℕ) (o : Option Text) (db : Db) (u : Done) (db' : Db)
    → update_http mailbox ids now o db ≡ ok u db'
    → db.memberships ≡ db'.memberships
unfolding update_email_folder
update_http-memberships mailbox ids now none db u db' h =
    ap (λ (d : Db). d.memberships) (ok-injective tt u db db' h).1
update_http-memberships mailbox [] now (some folder) db u db' h = cc h
update_http-memberships mailbox (id ∷ ids) now (some folder) db u db' h = cc h

-- The view after a move of the listed messages from one folder to another: those that were in the
-- source are in the target and, if it is another folder, no more in the source.
abbrev pub moved : Text → Text → List Text → (Text → Text → Bool) → Text → Text → Bool
moved source target ids view f e =
    if view source e && member e ids
    then if text_eq f target then true else if text_eq f source then false else view f e
    else view f e

-- The view after a copy.
abbrev copied : Text → Text → List Text → (Text → Text → Bool) → Text → Text → Bool
copied source target ids view f e =
    if view source e && member e ids then if text_eq f target then true else view f e else view f e

raw-moved :
    (view : Text → Text → Bool) (s t : Text) (ids : List Text) (f e : Text)
    → ((view s e && member e ids) ≡ true → view t e ≡ false)
    → ((view f e || (text_eq t f && (view s e && member e ids)))
        && not (text_eq f s && member e ids))
      ≡ moved s t ids view f e
raw-moved view s t ids f e new =
    ground (arith, new, text_eq_iff f s, text_eq_iff t f, text_eq_iff f t)

raw-copied :
    (view : Text → Text → Bool) (s t : Text) (ids : List Text) (f e : Text)
    → (view f e || (text_eq t f && (view s e && member e ids))) ≡ copied s t ids view f e
raw-copied view s t ids f e = ground (arith, text_eq_iff t f, text_eq_iff f t)

module _ (ids : List Text) (source target : Folder) (db : Db) where
  move_between-view :
      (mailbox to_name : Text) (now : ℕ) (u : Done) (db' : Db)
      → move_between mailbox to_name ids now source target (rows_in source.id ids db) db ≡ ok u db'
      → (f e : Text)
      → holds db'.memberships f e ≡ moved source.id target.id ids (holds db.memberships) f e
  unfolding move_between delete_rows save_folder rows_in
  move_between-view mailbox to_name now u db' h f e =
      let (t', db1, created, rest) =
        then_tx-ok (create_rows target (rows_in source.id ids db) db) _ u db' h in
      let (same, folders, view, new) =
        create_rows-Created target (rows_in source.id ids db) db t' db1 created in
      let kept =
        update_http-memberships mailbox (email_ids (rows_in source.id ids db)) now
          (http_folder_for_protocol_name to_name) _ u db' rest in
      rw
        (
          sym kept,
          holds-keep_rows (λ f e. not (text_eq f source.id && member e ids)) db1.memberships f e,
          view f e,
          member-rows source.id ids e db.memberships,
        )
        (raw-moved (holds db.memberships) source.id target.id ids f e
          (λ h. new e (member-rows source.id ids e db.memberships ∙ h)))

  copy_rows-view :
      (db' : Db) (t' : Folder) (db1 : Db)
      → create_rows target (rows_in source.id ids db) db ≡ ok t' db1
      → db1.memberships ≡ db'.memberships
      → (f e : Text)
      → holds db'.memberships f e ≡ copied source.id target.id ids (holds db.memberships) f e
  unfolding rows_in
  copy_rows-view db' t' db1 created kept f e =
      let (same, folders, view, new) =
        create_rows-Created target (rows_in source.id ids db) db t' db1 created in
      rw (sym kept, view f e, member-rows source.id ids e db.memberships)
        (raw-copied (holds db.memberships) source.id target.id ids f e)

-- MoveProtocolMessages, where it commits, has found two folders of the mailbox by these names, and
-- it has moved exactly the listed messages that were in the one into the other: every message is
-- otherwise in the folders it was in.
pub move_protocol_messages-view :
    (mailbox from_name to_name : Text) (ids : List Text) (now : ℕ) (db : Db) (u : Done) (db' : Db)
    → move_protocol_messages mailbox from_name to_name ids now db ≡ ok u db'
    → (source : Folder) × (target : Folder) × (find_folder mailbox from_name db.folders
        ≡ some source)
      × (find_folder mailbox to_name db.folders ≡ some target)
      × ((f e : Text)
          → holds db'.memberships f e ≡ moved source.id target.id ids (holds db.memberships) f e)
unfolding move_protocol_messages folder_named
move_protocol_messages-view mailbox from_name to_name ids now db u db' h =
    let (source, is_source, h1) =
      found_step (find_folder mailbox from_name db.folders) db _ u db' h in
    let (target, is_target, h2) =
      found_step (find_folder mailbox to_name db.folders) db _ u db' h1 in
    (
      source,
      target,
      is_source,
      is_target,
      move_between-view ids source target db mailbox to_name now u db' h2,
    )

-- CopyProtocolMessages, where it commits, has found two folders of the mailbox by these names, and
-- it has put exactly the listed messages that were in the one into the other as well.
copy_protocol_messages-view :
    (mailbox from_name to_name : Text) (ids : List Text) (db : Db) (u : Done) (db' : Db)
    → copy_protocol_messages mailbox from_name to_name ids db ≡ ok u db'
    → (source : Folder) × (target : Folder) × (find_folder mailbox from_name db.folders
        ≡ some source)
      × (find_folder mailbox to_name db.folders ≡ some target)
      × ((f e : Text)
          → holds db'.memberships f e ≡ copied source.id target.id ids (holds db.memberships) f e)
unfolding copy_protocol_messages folder_named save_folder
copy_protocol_messages-view mailbox from_name to_name ids db u db' h =
    let (source, is_source, h1) =
      found_step (find_folder mailbox from_name db.folders) db _ u db' h in
    let (target, is_target, h2) =
      found_step (find_folder mailbox to_name db.folders) db _ u db' h1 in
    let (t', db1, created, saved) =
      then_tx-ok (create_rows target (rows_in source.id ids db) db) _ u db' h2 in
    (
      source,
      target,
      is_source,
      is_target,
      copy_rows-view ids source target db db' t' db1 created (cc saved),
    )
