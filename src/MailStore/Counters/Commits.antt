-- ===== src/MailStore/Counters/Commits.antt =====
-- When a move commits: its rows can be created.
use elec_postal.Base.{
  ℕ, ◌+◌, ◌≡◌, inl, inr, refl, sym, ◌∙◌, true, false, ◌&&◌, Option, none, some, List, [], ◌∷◌,
  arith, Bool-cases, length,
}
use elec_postal.Text.{Text, text_eq_iff, text_eq_refl, member}
use elec_postal.MailStore.Tables.{
  Folder, Membership, Db, ok, find_folder, folder_named, keep_rows, rows_in, delete_rows, selected,
  is_taken, create_row, save_folder, ◌>>◌, next64,
}
use elec_postal.MailStore.Folders.{http_folder_for_protocol_name}
use elec_postal.MailStore.Messages.{
  create_rows, email_ids, update_http, update_email_folder, move_between, move_protocol_messages,
  bumped, filed,
}
use elec_postal.MailStore.View.{holds, member-rows}
use elec_postal.MailStore.Counters.{
  Bounded, IsConsistent, Room, find_folder-All, Bounded-filed, next32-eq, next64-eq,
}
use elec_postal.MailStore.Counters.Kept.{HasRoom, length-keep_rows}

-- The primary key of the table: no two rows for one message in one folder.
abbrev pub IsKeyed : List Membership → Type 0
IsKeyed [] = Unit {0}
IsKeyed (m ∷ ms) = (holds ms m.folder_id m.email_id ≡ false) × IsKeyed ms

abbrev IsDistinct : List Membership → Type 0
IsDistinct [] = Unit {0}
IsDistinct (m ∷ ms) = (member m.email_id (email_ids ms) ≡ false) × IsDistinct ms

selected-IsDistinct :
    (k : Text) (ids : List Text) (ms : List Membership)
    → IsKeyed ms
    → IsDistinct (keep_rows (selected k ids) ms)
unfolding keep_rows
selected-IsDistinct k ids [] h = tt
selected-IsDistinct k ids (m ∷ ms) (h, hs) = elim (Bool-cases (selected k ids m)) [
  | inl e ↦ rw e (
    ground (arith, member-rows k ids m.email_id ms, e, h, text_eq_iff m.folder_id k),
    selected-IsDistinct k ids ms hs,
  )
  | inr e ↦ rw e (selected-IsDistinct k ids ms hs)
]

filed-free :
    (t : Folder) (row : Membership) (ms : List Membership)
    → Bounded t ms
    → holds ms t.id row.email_id ≡ false
    → is_taken (filed t row) ms ≡ false
unfolding is_taken
filed-free t row [] b h = refl
filed-free t row (n ∷ ms) (b, bs) h =
    ground (arith, b, filed-free t row ms bs, text_eq_iff n.folder_id t.id)

create_rows_commit :
    (t : Folder) (rows : List Membership) (db : Db)
    → Room (length rows) t
    → Bounded t db.memberships
    → IsDistinct rows
    → ((e : Text) → member e (email_ids rows) ≡ true → holds db.memberships t.id e ≡ false)
    → (t' : Folder) × (db' : Db) × (create_rows t rows db ≡ ok t' db')
unfolding create_rows create_row member
create_rows_commit t [] db room b distinct new = (t, db, refl)
create_rows_commit t (row ∷ rows) db room b (first, distinct) new =
    let free =
      filed-free t row db.memberships b
        (new row.email_id (ground (arith, text_eq_refl row.email_id))) in
    let uid = next32-eq t.next_uid (omega (arith, room.0)) in
    let seq = next64-eq t.highest_mod_seq (omega (arith, room.1)) in
    let (t', db', h) =
      create_rows_commit (bumped t) rows (record db { memberships = filed t row ∷ db.memberships })
        (omega (arith, uid, room.0), omega (arith, seq, room.1))
        (Bounded-filed t row db.memberships (omega (arith, room.0), omega (arith, room.1)) b)
        distinct (λ e h. ground (arith, new e, h, first, text_eq_iff row.email_id e)) in
    (t', db', rw free h)

update_http_commits :
    (mailbox : Text) (ids : List Text) (now : ℕ) (o : Option Text) (db : Db)
    → (db' : Db) × (update_http mailbox ids now o db ≡ ok tt db')
unfolding update_email_folder
update_http_commits mailbox ids now none db = (db, refl)
update_http_commits mailbox [] now (some folder) db = (db, refl)
update_http_commits mailbox (id ∷ ids) now (some folder) db = (_, refl)

rest_commits :
    (mailbox : Text) (ids moved_ids : List Text) (now : ℕ) (o : Option Text) (source t : Folder)
    (db : Db)
    → (db' : Db) × ((do
      delete_rows (selected source.id ids)
      save_folder (record source { highest_mod_seq = next64 source.highest_mod_seq })
      save_folder t
      update_http mailbox moved_ids now o)
          db
        ≡ ok tt db')
unfolding delete_rows save_folder
rest_commits mailbox ids moved_ids now o source t db = update_http_commits mailbox moved_ids now o _

-- MoveProtocolMessages commits if both folders exist, the counters are ahead and have room, and none
-- of the messages to be moved is in the target already.
pub move_protocol_messages_commits :
    (mailbox from_name to_name : Text) (ids : List Text) (now : ℕ) (source target : Folder)
    (db : Db)
    → find_folder mailbox from_name db.folders ≡ some source
    → find_folder mailbox to_name db.folders ≡ some target
    → IsConsistent db
    → HasRoom db
    → IsKeyed db.memberships
    → ((e : Text)
        → (holds db.memberships source.id e && member e ids) ≡ true
        → holds db.memberships target.id e ≡ false)
    → (db' : Db) × (move_protocol_messages mailbox from_name to_name ids now db ≡ ok tt db')
unfolding move_protocol_messages folder_named move_between delete_rows save_folder rows_in
move_protocol_messages_commits mailbox from_name to_name ids now source target db is_source
      is_target consistent room keyed absent =
    let rows = keep_rows (selected source.id ids) db.memberships in
    let fewer = length-keep_rows (selected source.id ids) db.memberships in
    let space =
      find_folder-All (Room (length db.memberships + 1)) mailbox to_name db.folders target is_target
        room in
    let (t', db1, created) =
      create_rows_commit target rows db
        (omega (arith, space.0, fewer), omega (arith, space.1, fewer))
        (find_folder-All (λ f. Bounded f db.memberships) mailbox to_name db.folders target is_target
          consistent)
        (selected-IsDistinct source.id ids db.memberships keyed)
        (λ e h. absent e (sym (member-rows source.id ids e db.memberships) ∙ h)) in
    let (db', done) =
      rest_commits mailbox ids (email_ids rows) now (http_folder_for_protocol_name to_name) source
        t' db1 in
    (db', rw (is_source, is_target, created) done)
