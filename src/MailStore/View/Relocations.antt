-- ===== src/MailStore/View/Relocations.antt =====
-- What a change of folder on the HTTP side does to the view of the mail store.
use elec_postal.Base.{
  ℕ, ◌≡◌, refl, sym, ap, ◌∙◌, Bool, true, false, not, ◌&&◌, ◌||◌, Option, none, some, List, [], ◌∷◌,
  arith, if◌then◌else◌,
}
use elec_postal.Text.{Text, text_eq, text_eq_iff, text_eq_refl, member}
use elec_postal.MailStore.Tables.{
  Folder, Membership, EmailRow, Db, ok, pure, Done, find_folder, folder_named, keep_rows,
  delete_rows, create_row, save_folder,
}
use elec_postal.MailStore.Folders.{
  Fresh, default_protocol_folders, add_missing, ensure_folders, ensure_protocol_folders,
}
use elec_postal.MailStore.Messages.{with_no_ids, add_membership}
use elec_postal.MailStore.Relocation.{
  folder_ids, of_message, is_present, displaced_from, carried, take_out, put_in, relocate_rows,
  relocate_folder_membership,
}
use elec_postal.MailStore.View.{holds, then_tx-ok, ok-injective, holds-keep_rows, create_row-ok}
use elec_postal.MailStore.View.Moves.{found_step}

is_present-rows :
    (k id : Text) (ids : List Text) (ms : List Membership)
    → is_present k (keep_rows (of_message id ids) ms) ≡ (holds ms k id && member k ids)
unfolding is_present keep_rows member
is_present-rows k id ids [] = refl
is_present-rows k id ids (m ∷ ms) =
    ground (arith, is_present-rows k id ids ms, text_eq_iff m.folder_id k)

member-displaced_from :
    (k id : Text) (ids : List Text) (f : Text) (ms : List Membership)
    → member f (displaced_from k (keep_rows (of_message id ids) ms))
      ≡ (holds ms f id && (member f ids && not (text_eq f k)))
unfolding displaced_from keep_rows member
member-displaced_from k id ids f [] = refl
member-displaced_from k id ids f (m ∷ ms) = ground (
  arith,
  member-displaced_from k id ids f ms,
  text_eq_iff f m.folder_id,
  text_eq_iff m.folder_id f,
)

find_folder-id :
    (mailbox folder_name : Text) (fs : List Folder) (t : Folder)
    → find_folder mailbox folder_name fs ≡ some t
    → member t.id (folder_ids mailbox fs) ≡ true
unfolding find_folder folder_ids member
find_folder-id mailbox folder_name [] t h = absurd (cc h)
find_folder-id mailbox folder_name (f ∷ fs) t h =
    ground (arith, find_folder-id mailbox folder_name fs t, text_eq_refl t.id)

-- The view after a message has been filed into one of the folders of a mailbox: it is there, in no
-- other folder of that mailbox, and nothing else changes.
abbrev pub relocated : Text → Text → List Text → (Text → Text → Bool) → Text → Text → Bool
relocated id target ids view f e =
    if text_eq e id
    then if text_eq f target then true else if member f ids then false else view f e
    else view f e

raw-relocated :
    (view : Text → Text → Bool) (id t : Text) (ids : List Text) (f e : Text)
    → member t ids ≡ true
    → ((view f e && not (text_eq e id && (view f id && (member f ids && not (text_eq f t)))))
        || (not (view t id && member t ids) && (text_eq t f && text_eq id e)))
      ≡ relocated id t ids view f e
raw-relocated view id t ids f e own =
    ground (arith, own, text_eq_iff e id, text_eq_iff id e, text_eq_iff f t, text_eq_iff t f)

add_membership-view :
    (t : Folder) (id : Text) (flags : List Text) (db : Db) (v : ℕ × ℕ) (db' : Db)
    → add_membership t id flags db ≡ ok v db'
    → (f e : Text)
    → holds db'.memberships f e ≡ (holds db.memberships f e || (text_eq t.id f && text_eq id e))
unfolding add_membership save_folder
add_membership-view t id flags db v db' h f e =
    let (w, db1, created, h1) = then_tx-ok (create_row _ db) _ v db' h in
    let (free, same) = create_row-ok _ db w db1 created in
    let saved = ap (λ (d : Db). d.memberships) (ok-injective _ v _ db' h1).1 in
    rw (sym saved, same) (ground arith)

module _ (email : EmailRow) (target : Folder) (ids : List Text) where
  put_in-view :
      (rows : List Membership) (present : Bool) (db : Db) (u : Done) (db' : Db)
      → put_in email target rows present db ≡ ok u db'
      → (f e : Text)
      → holds db'.memberships f e ≡ (
          holds db.memberships f e
          || (not present && (text_eq target.id f && text_eq email.row_id e)))
  unfolding put_in add_membership save_folder
  put_in-view rows true db u db' h f e =
      rw (sym (ap (λ (d : Db). d.memberships) (ok-injective tt u db db' h).1)) (ground arith)
  put_in-view rows false db u db' h f e =
      let (v, db1, added, h1) =
        then_tx-ok (add_membership target email.row_id (carried email rows) db) _ u db' h in
      rw (sym (ap (λ (d : Db). d.memberships) (ok-injective tt u db1 db' h1).1))
        (add_membership-view target email.row_id (carried email rows) db v db1 added f e)

  take_out-view :
      (d : List Text) (db : Db) (u : Done) (db' : Db)
      → with_no_ids d (pure tt) (take_out email.row_id d) db ≡ ok u db'
      → (f e : Text)
      → holds db'.memberships f e
        ≡ (holds db.memberships f e && not (text_eq e email.row_id && member f d))
  unfolding take_out delete_rows member
  take_out-view [] db u db' h f e =
      rw (sym (ap (λ (d : Db). d.memberships) (ok-injective tt u db db' h).1)) (ground arith)
  take_out-view (k ∷ d) db u db' h f e =
      let kept = ap (λ (d : Db). d.memberships) (ok-injective tt u _ db' h).1 in
      rw (sym kept) (
        holds-keep_rows (λ f e. not (text_eq e email.row_id && member f (k ∷ d))) db.memberships f
          e)

  relocate_rows-view :
      (db : Db) (u : Done) (db' : Db)
      → relocate_rows email target (keep_rows (of_message email.row_id ids) db.memberships) db
        ≡ ok u db'
      → member target.id ids ≡ true
      → (f e : Text)
      → holds db'.memberships f e ≡ relocated email.row_id target.id ids (holds db.memberships) f e
  unfolding relocate_rows
  relocate_rows-view db u db' h own f e =
      let rows = keep_rows (of_message email.row_id ids) db.memberships in
      let (v, db1, taken, h1) =
        then_tx-ok
          (with_no_ids (displaced_from target.id rows) (pure tt)
            (take_out email.row_id (displaced_from target.id rows)) db)
          _ u db' h in
      rw
        (
          put_in-view rows (is_present target.id rows) db1 u db' h1 f e,
          take_out-view (displaced_from target.id rows) db v db1 taken f e,
          is_present-rows target.id email.row_id ids db.memberships,
          member-displaced_from target.id email.row_id ids f db.memberships,
        )
        (raw-relocated (holds db.memberships) email.row_id target.id ids f e own)

add_missing-memberships :
    (fresh : Fresh) (mailbox : Text) (spec : Text × Text) (o : Option Folder) (db : Db) (u : Done)
    (db' : Db)
    → add_missing fresh mailbox spec o db ≡ ok u db'
    → db.memberships ≡ db'.memberships
add_missing-memberships fresh mailbox spec none db u db' h = cc h
add_missing-memberships fresh mailbox spec (some f) db u db' h = cc h

pub ensure_folders-memberships :
    (fresh : Fresh) (mailbox : Text) (specs : List (Text × Text)) (db : Db) (u : Done) (db' : Db)
    → ensure_folders fresh mailbox specs db ≡ ok u db'
    → db.memberships ≡ db'.memberships
unfolding ensure_folders
ensure_folders-memberships fresh mailbox [] db u db' h = cc h
ensure_folders-memberships fresh mailbox (spec ∷ specs) db u db' h =
    let o = find_folder mailbox spec.0 db.folders in
    let (v, db1, added, rest) = then_tx-ok (add_missing fresh mailbox spec o db) _ u db' h in
    add_missing-memberships fresh mailbox spec o db v db1 added
    ∙ ensure_folders-memberships fresh mailbox specs db1 u db' rest

-- relocateFolderMembershipTx, where it commits, has filed the message into the folder of that name
-- and taken it out of every other folder of its mailbox, as the folders are once the six default
-- ones are there; every other message, and every other mailbox, is as before.
pub relocate_folder_membership-view :
    (fresh : Fresh) (email : EmailRow) (folder_name : Text) (db : Db) (u : Done) (db' : Db)
    → relocate_folder_membership fresh email folder_name db ≡ ok u db'
    → (db1 : Db) × (target : Folder) × (ensure_protocol_folders fresh email.mailbox db ≡ ok tt db1)
      × (find_folder email.mailbox folder_name db1.folders ≡ some target)
      × ((f e : Text)
          → holds db'.memberships f e
            ≡ relocated email.row_id target.id
                (folder_ids email.mailbox db1.folders)
                (holds db.memberships)
                f
                e)
unfolding relocate_folder_membership folder_named ensure_protocol_folders
relocate_folder_membership-view fresh email folder_name db u db' h =
    let (tt, db1, ensured, h1) =
      then_tx-ok (ensure_protocol_folders fresh email.mailbox db) _ u db' h in
    let (target, is_target, h2) =
      found_step (find_folder email.mailbox folder_name db1.folders) db1 _ u db' h1 in
    let same =
      ensure_folders-memberships fresh email.mailbox default_protocol_folders db tt db1 ensured in
    (
      db1,
      target,
      ensured,
      is_target,
      λ f e. rw same (
          relocate_rows-view email target (folder_ids email.mailbox db1.folders) db1 u db' h2
            (find_folder-id email.mailbox folder_name db1.folders target is_target) f e),
    )
