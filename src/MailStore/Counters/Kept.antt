-- ===== src/MailStore/Counters/Kept.antt =====
-- The operations keep the counters of the folders ahead of their messages.
use elec_postal.Base.{
  ℕ, ◌+◌, ◌≤◌, ◌<◌, ◌^◌, ◌≡◌, inl, inr, refl, sym, Bool, not, Option, none, some, List, [], ◌∷◌,
  arith, Bool-cases, All, All-impl, length,
}
use elec_postal.Text.{Text, text_eq}
use elec_postal.MailStore.Tables.{
  Folder, Membership, Db, ok, Done, find_folder, folder_named, keep_rows, rows_in, delete_rows,
  selected, create_row, save_folder, replace_folder, next64,
}
use elec_postal.MailStore.Folders.{http_folder_for_protocol_name}
use elec_postal.MailStore.Messages.{
  create_rows, email_ids, update_http, update_email_folder, move_between, move_protocol_messages,
  copy_protocol_messages, bumped, membership_of, add_membership,
}
use elec_postal.MailStore.View.{then_tx-ok, ok-injective, create_row-ok, create_rows-Created}
use elec_postal.MailStore.View.Moves.{found_step}
use elec_postal.MailStore.Counters.{
  Bounded, IsConsistent, Room, Beside, find_folder-All, Bounded-keep_rows, Bounded-mono,
  replace_folder-All, Bounded-filed, Bounded-other, next64-eq, create_rows-Bounded,
}

-- Every folder has room for as many steps as there are rows, and one more.
abbrev pub HasRoom : Db → Type 0
HasRoom db = All (Room (length db.memberships + 1)) db.folders

pub length-keep_rows :
    (p : Membership → Bool) (ms : List Membership) → length (keep_rows p ms) ≤ length ms
unfolding keep_rows
length-keep_rows p [] = omega arith
length-keep_rows p (m ∷ ms) = ground (arith, length-keep_rows p ms)

replace_folder-Beside :
    (id : Text) (ms : List Membership) (s : Folder) (fs : List Folder)
    → Beside id ms s
    → All (Beside id ms) fs
    → All (Beside id ms) (replace_folder s fs)
replace_folder-Beside id ms s [] h hs = tt
replace_folder-Beside id ms s (f ∷ fs) h (hf, hs) = elim (Bool-cases (text_eq f.id s.id)) [
  | inl e ↦ rw e (h, replace_folder-Beside id ms s fs h hs)
  | inr e ↦ rw e (hf, replace_folder-Beside id ms s fs h hs)
]

Beside-keep_rows :
    (p : Membership → Bool) (id : Text) (ms : List Membership) (f : Folder)
    → Beside id ms f
    → Beside id (keep_rows p ms) f
Beside-keep_rows p id ms f (inl same) = inl same
Beside-keep_rows p id ms f (inr h) = inr (Bounded-keep_rows p f ms h)

-- A folder of which a mod-sequence has been used up.
abbrev pub advanced : Folder → Folder
advanced f = record f { highest_mod_seq = next64 f.highest_mod_seq }

Beside-advanced :
    (id : Text) (ms : List Membership) (f : Folder)
    → f.highest_mod_seq + 1 < 2 ^ 64
    → Beside id ms f
    → Beside id ms (advanced f)
Beside-advanced id ms f room (inl same) = inl same
Beside-advanced id ms f room (inr h) = inr (
    Bounded-mono f (advanced f) ms refl (omega arith)
      (omega (arith, next64-eq f.highest_mod_seq room)) h)

update_http-IsConsistent :
    (mailbox : Text) (ids : List Text) (now : ℕ) (o : Option Text) (db : Db) (u : Done) (db' : Db)
    → update_http mailbox ids now o db ≡ ok u db'
    → IsConsistent db
    → IsConsistent db'
unfolding update_email_folder
update_http-IsConsistent mailbox ids now none db u db' h c =
    rw (sym (ok-injective tt u _ db' h).1) c
update_http-IsConsistent mailbox [] now (some folder) db u db' h c =
    rw (sym (ok-injective tt u _ db' h).1) c
update_http-IsConsistent mailbox (id ∷ ids) now (some folder) db u db' h c =
    rw (sym (ok-injective tt u _ db' h).1) c

module _ (ids : List Text) (source target : Folder) (db : Db) (consistent : IsConsistent db)
    (room : HasRoom db) where
  -- what the creation of the rows leaves
  created-Bounded :
      (t' : Folder) (db1 : Db)
      → create_rows target (rows_in source.id ids db) db ≡ ok t' db1
      → Bounded target db.memberships
      → Room (length db.memberships + 1) target
      → (t'.id ≡ target.id)
        × Bounded t' db1.memberships
        × All (Beside target.id db1.memberships) db1.folders
  unfolding rows_in
  created-Bounded t' db1 h b (uids, seqs) =
      let fewer = length-keep_rows (selected source.id ids) db.memberships in
      create_rows-Bounded target (rows_in source.id ids db) db t' db1 h
        (omega (arith, uids, fewer), omega (arith, seqs, fewer)) b
        (All-impl (λ f h. inr h) db.folders consistent)

  move_between-IsConsistent :
      (mailbox to_name from_name : Text) (now : ℕ) (u : Done) (db' : Db)
      → find_folder mailbox from_name db.folders ≡ some source
      → find_folder mailbox to_name db.folders ≡ some target
      → move_between mailbox to_name ids now source target (rows_in source.id ids db) db ≡ ok u db'
      → IsConsistent db'
  unfolding move_between delete_rows save_folder
  move_between-IsConsistent mailbox to_name from_name now u db' is_source is_target h =
      let rows = rows_in source.id ids db in
      let (t', db1, created, rest) = then_tx-ok (create_rows target rows db) _ u db' h in
      let (same', folders, view, new) = create_rows-Created target rows db t' db1 created in
      let (same, b, others) =
        created-Bounded t' db1 created
          (find_folder-All (λ f. Bounded f db.memberships) mailbox to_name db.folders target
            is_target consistent)
          (find_folder-All (Room (length db.memberships + 1)) mailbox to_name db.folders target
            is_target room) in
      let p = λ (m : Membership). not (selected source.id ids m) in
      let kept = keep_rows p db1.memberships in
      let others' =
        All-impl (λ f h. Beside-keep_rows p target.id db1.memberships f h) db1.folders others in
      let at_source =
        find_folder-All (Beside target.id kept) mailbox from_name db1.folders source
          (rw folders is_source) others' in
      let source_room =
        find_folder-All (Room (length db.memberships + 1)) mailbox from_name db.folders source
          is_source room in
      update_http-IsConsistent mailbox (email_ids rows) now (http_folder_for_protocol_name to_name)
        _ u db' rest
        (replace_folder-All t' kept (replace_folder (advanced source) db1.folders)
          (rw same (
            replace_folder-Beside target.id kept (advanced source) db1.folders
              (Beside-advanced target.id kept source (omega (arith, source_room.1)) at_source)
              others'))
          (Bounded-keep_rows p t' db1.memberships b))

  copy_rows-IsConsistent :
      (mailbox to_name : Text) (t' : Folder) (u : Done) (db1 db' : Db)
      → find_folder mailbox to_name db.folders ≡ some target
      → create_rows target (rows_in source.id ids db) db ≡ ok t' db1
      → save_folder t' db1 ≡ ok u db'
      → IsConsistent db'
  unfolding save_folder
  copy_rows-IsConsistent mailbox to_name t' u db1 db' is_target created saved =
      let (same, b, others) =
        created-Bounded t' db1 created
          (find_folder-All (λ f. Bounded f db.memberships) mailbox to_name db.folders target
            is_target consistent)
          (find_folder-All (Room (length db.memberships + 1)) mailbox to_name db.folders target
            is_target room) in
      rw (sym (ok-injective tt u _ db' saved).1)
        (replace_folder-All t' db1.memberships db1.folders (rw same others) b)

-- MoveProtocolMessages, where it commits and no counter overflows, keeps the counters ahead.
pub move_protocol_messages-IsConsistent :
    (mailbox from_name to_name : Text) (ids : List Text) (now : ℕ) (db : Db) (u : Done) (db' : Db)
    → IsConsistent db
    → HasRoom db
    → move_protocol_messages mailbox from_name to_name ids now db ≡ ok u db'
    → IsConsistent db'
unfolding move_protocol_messages folder_named
move_protocol_messages-IsConsistent mailbox from_name to_name ids now db u db' consistent room h =
    let (source, is_source, h1) =
      found_step (find_folder mailbox from_name db.folders) db _ u db' h in
    let (target, is_target, h2) =
      found_step (find_folder mailbox to_name db.folders) db _ u db' h1 in
    move_between-IsConsistent ids source target db consistent room mailbox to_name from_name now u
      db' is_source is_target h2

-- The same of CopyProtocolMessages.
pub copy_protocol_messages-IsConsistent :
    (mailbox from_name to_name : Text) (ids : List Text) (db : Db) (u : Done) (db' : Db)
    → IsConsistent db
    → HasRoom db
    → copy_protocol_messages mailbox from_name to_name ids db ≡ ok u db'
    → IsConsistent db'
unfolding copy_protocol_messages folder_named
copy_protocol_messages-IsConsistent mailbox from_name to_name ids db u db' consistent room h =
    let (source, is_source, h1) =
      found_step (find_folder mailbox from_name db.folders) db _ u db' h in
    let (target, is_target, h2) =
      found_step (find_folder mailbox to_name db.folders) db _ u db' h1 in
    let (t', db1, created, saved) =
      then_tx-ok (create_rows target (rows_in source.id ids db) db) _ u db' h2 in
    copy_rows-IsConsistent ids source target db consistent room mailbox to_name t' u db1 db'
      is_target created saved

-- The same of a new membership.
pub add_membership-IsConsistent :
    (t : Folder) (id : Text) (flags : List Text) (db : Db) (v : ℕ × ℕ) (db' : Db)
    → All (Beside t.id db.memberships) db.folders
    → Bounded t db.memberships
    → Room 1 t
    → add_membership t id flags db ≡ ok v db'
    → IsConsistent db'
unfolding add_membership save_folder
add_membership-IsConsistent t id flags db v db' others b room h =
    let row = membership_of t id flags in
    let (w, db1, created, h1) = then_tx-ok (create_row row db) _ v db' h in
    let (free, same) = create_row-ok row db w db1 created in
    rw (sym (ok-injective _ v _ db' h1).1, same)
      (replace_folder-All (bumped t) (row ∷ db.memberships) db.folders
        (All-impl (λ f h. Bounded-other f t row db.memberships h) db.folders others)
        (Bounded-filed t row db.memberships room b))
