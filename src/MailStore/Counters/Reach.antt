-- ===== src/MailStore/Counters/Reach.antt =====
-- Sequences of protocol operations: the counters of every folder stay ahead of its messages.
use elec_postal.Base.{ℕ, ◌+◌, ◌<◌, ◌^◌, ◌≡◌, List, length}
use elec_postal.Text.{Text}
use elec_postal.MailStore.Tables.{Membership, EmailRow, Db, ok}
use elec_postal.MailStore.Folders.{Fresh}
use elec_postal.MailStore.Messages.{
  StoreResult, move_protocol_messages, copy_protocol_messages, store_protocol_flags,
  append_folder_membership, add_folder_membership,
}
use elec_postal.MailStore.Relocation.{relocate_folder_membership, purge_rows}
use elec_postal.MailStore.Counters.{IsConsistent}
use elec_postal.MailStore.Counters.Kept.{
  HasRoom, move_protocol_messages-IsConsistent, copy_protocol_messages-IsConsistent,
}
use elec_postal.MailStore.Counters.Rows.{store_protocol_flags-IsConsistent}
use elec_postal.MailStore.Counters.Places.{
  IsFresh, append_folder_membership-IsConsistent, add_folder_membership-IsConsistent,
  relocate_folder_membership-IsConsistent, purge_rows-IsConsistent,
}

-- What a step may rely on: no counter is about to overflow, and identifiers of new folders are not
-- in use.
abbrev pub IsReady : Fresh → Db → Type 0
IsReady fresh db = HasRoom db × (length db.memberships + 2 < 2 ^ 32) × IsFresh fresh db

-- The transactions that commit, on the folders and their memberships.
pub data Step (fresh : Fresh) (db db' : Db) : Type 0 where
  moves :
      (mailbox from_name to_name : Text) (ids : List Text) (now : ℕ)
      → move_protocol_messages mailbox from_name to_name ids now db ≡ ok tt db'
      → Step fresh db db'
  copies :
      (mailbox from_name to_name : Text) (ids : List Text)
      → copy_protocol_messages mailbox from_name to_name ids db ≡ ok tt db'
      → Step fresh db db'
  flags :
      (names : List Text) (mode : Text) (unchanged_since : ℕ) (mailbox folder_name : Text)
      (ids : List Text) (results : List StoreResult)
      → store_protocol_flags names mode unchanged_since mailbox folder_name ids db ≡ ok results db'
      → Step fresh db db'
  appends :
      (mailbox folder_name email : Text) (names : List Text) (numbers : ℕ × ℕ)
      → append_folder_membership fresh mailbox folder_name email names db ≡ ok numbers db'
      → Step fresh db db'
  adds :
      (mailbox folder_name email : Text)
      → add_folder_membership fresh mailbox folder_name email db ≡ ok tt db'
      → Step fresh db db'
  relocates :
      (email : EmailRow) (folder_name : Text)
      → relocate_folder_membership fresh email folder_name db ≡ ok tt db'
      → Step fresh db db'
  purges : (rows : List Membership) → purge_rows rows db ≡ ok tt db' → Step fresh db db'

pub data Reach (db : Db) : Db → Type 0 where
  start : Reach db db
  next :
      {before after : Db} (fresh : Fresh)
      → Reach db before
      → IsReady fresh before
      → Step fresh before after
      → Reach db after

Step-IsConsistent :
    {fresh : Fresh} {db db' : Db}
    → Step fresh db db'
    → IsReady fresh db
    → IsConsistent db
    → IsConsistent db'
Step-IsConsistent {fresh} {db} {db'} (moves mailbox from_name to_name ids now h) (room, few, new)
      c =
    move_protocol_messages-IsConsistent mailbox from_name to_name ids now db tt db' c room h
Step-IsConsistent {fresh} {db} {db'} (copies mailbox from_name to_name ids h) (room, few, new) c =
    copy_protocol_messages-IsConsistent mailbox from_name to_name ids db tt db' c room h
Step-IsConsistent {fresh} {db} {db'} (flags names mode since mailbox folder_name ids results h)
      (room, few, new) c =
    store_protocol_flags-IsConsistent names mode since mailbox folder_name ids db results db' c room
      h
Step-IsConsistent {fresh} {db} {db'} (appends mailbox folder_name email names numbers h)
      (room, few, new) c =
    append_folder_membership-IsConsistent fresh db c room few new mailbox folder_name email names
      numbers db' h
Step-IsConsistent {fresh} {db} {db'} (adds mailbox folder_name email h) (room, few, new) c =
    add_folder_membership-IsConsistent fresh db c room few new mailbox folder_name email tt db' h
Step-IsConsistent {fresh} {db} {db'} (relocates email folder_name h) (room, few, new) c =
    relocate_folder_membership-IsConsistent fresh db c room few new email folder_name tt db' h
Step-IsConsistent {fresh} {db} {db'} (purges rows h) (room, few, new) c =
    purge_rows-IsConsistent rows db tt db' h c

-- From consistent tables, whatever protocol operations commit and in whatever order, as long as no
-- counter overflows and new folders get new identifiers: every UID of a folder stays below its next
-- UID and every mod-sequence at most its highest.
pub Reach-IsConsistent : {db db' : Db} → Reach db db' → IsConsistent db → IsConsistent db'
Reach-IsConsistent start c = c
Reach-IsConsistent (next fresh before ready step) c =
    Step-IsConsistent step ready (Reach-IsConsistent before c)
