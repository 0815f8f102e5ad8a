-- ===== src/MailStore/Counters/Places.antt =====
-- Relocation, new memberships, removal and the default folders keep the counters ahead.
use elec_postal.Base.{
  ℕ, ◌+◌, ◌<◌, ◌^◌, ◌≡◌, ◌≢◌, inl, inr, refl, sym, Bool, true, false, not, Option, none, some, List,
  [], ◌∷◌, arith, Bool-cases, All, All-impl, length,
}
use elec_postal.Text.{Text, codes, member}
use elec_postal.MailStore.Tables.{
  Folder, Membership, EmailRow, Db, ok, pure, Done, find_folder, folder_named, keep_rows,
  delete_rows,
}
use elec_postal.MailStore.Flags.{merge_flags}
use elec_postal.MailStore.Folders.{
  Fresh, new_folder, add_missing, ensure_folders, ensure_protocol_folders, default_protocol_folders,
}
use elec_postal.MailStore.Messages.{
  add_membership, with_no_ids, append_folder_membership, add_folder_membership,
}
use elec_postal.MailStore.Relocation.{
  folder_ids, of_message, is_present, displaced_from, carried, advance_folders, take_out, put_in,
  relocate_rows, relocate_folder_membership, purge_email_rows, of_email, folders_of, purge_rows,
}
use elec_postal.MailStore.View.{then_tx-ok, ok-injective}
use elec_postal.MailStore.View.Moves.{found_step}
use elec_postal.MailStore.View.Relocations.{ensure_folders-memberships}
use elec_postal.MailStore.Counters.{
  Bounded, IsConsistent, Room, find_folder-All, Bounded-keep_rows, Bounded-mono,
}
use elec_postal.MailStore.Counters.Kept.{HasRoom, add_membership-IsConsistent}

-- No membership names the identifier of a folder that is still to be made.
abbrev pub IsFresh : Fresh → Db → Type 0
IsFresh fresh db =
    (mailbox folder_name : Text)
    → All (λ (m : Membership). m.folder_id ≢ fresh.folder_key mailbox folder_name) db.memberships

module _ (P : Folder → Type 0) (fresh : Fresh) (mailbox : Text)
    (new : (folder_name use_flag : Text) → P (new_folder fresh mailbox folder_name use_flag)) where
  add_missing-All :
      (spec : Text × Text) (o : Option Folder) (db : Db) (u : Done) (db' : Db)
      → add_missing fresh mailbox spec o db ≡ ok u db'
      → All P db.folders
      → All P db'.folders
  add_missing-All (folder_name, use_flag) none db u db' h p =
      rw (sym (ok-injective tt u _ db' h).1) (new folder_name use_flag, p)
  add_missing-All spec (some f) db u db' h p = rw (sym (ok-injective tt u db db' h).1) p

  ensure_folders-All :
      (specs : List (Text × Text)) (db : Db) (u : Done) (db' : Db)
      → ensure_folders fresh mailbox specs db ≡ ok u db'
      → All P db.folders
      → All P db'.folders
  unfolding ensure_folders
  ensure_folders-All [] db u db' h p = rw (sym (ok-injective tt u db db' h).1) p
  ensure_folders-All (spec ∷ specs) db u db' h p =
      let o = find_folder mailbox spec.0 db.folders in
      let (v, db1, added, rest) = then_tx-ok (add_missing fresh mailbox spec o db) _ u db' h in
      ensure_folders-All specs db1 u db' rest (add_missing-All spec o db v db1 added p)

-- What the default folders leave to what follows.
ensure_protocol_folders-keeps :
    (fresh : Fresh) (mailbox : Text) (db : Db) (u : Done) (db1 : Db)
    → IsConsistent db
    → HasRoom db
    → length db.memberships + 2 < 2 ^ 32
    → IsFresh fresh db
    → ensure_protocol_folders fresh mailbox db ≡ ok u db1
    → IsConsistent db1 × HasRoom db1
unfolding ensure_protocol_folders
ensure_protocol_folders-keeps fresh mailbox db u db1 consistent room few is_fresh h =
    let same = ensure_folders-memberships fresh mailbox default_protocol_folders db u db1 h in
    rw (sym same) (
      ensure_folders-All (λ f. Bounded f db.memberships) fresh mailbox
          (λ folder_name use_flag.
            All-impl (λ m ne same. absurd (ne same)) db.memberships (is_fresh mailbox folder_name))
          default_protocol_folders db u db1 h consistent,
      ensure_folders-All (Room (length db.memberships + 1)) fresh mailbox
          (λ folder_name use_flag. (omega (arith, few), omega (arith, few)))
          default_protocol_folders db u db1 h room,
    )

-- A new membership in a folder that was found.
found-IsConsistent :
    (mailbox folder_name id : Text) (flags : List Text) (t : Folder) (db : Db) (v : ℕ × ℕ)
    (db' : Db)
    → IsConsistent db
    → HasRoom db
    → find_folder mailbox folder_name db.folders ≡ some t
    → add_membership t id flags db ≡ ok v db'
    → IsConsistent db'
found-IsConsistent mailbox folder_name id flags t db v db' consistent room is_folder h =
    let space =
      find_folder-All (Room (length db.memberships + 1)) mailbox folder_name db.folders t is_folder
        room in
    add_membership-IsConsistent t id flags db v db' (All-impl (λ f h. inr h) db.folders consistent)
      (find_folder-All (λ f. Bounded f db.memberships) mailbox folder_name db.folders t is_folder
        consistent)
      (omega (arith, space.0), omega (arith, space.1)) h

advance_folders-Bounded :
    (ids : List Text) (ms : List Membership) (fs : List Folder)
    → All (λ f. Bounded f ms) fs
    → All (λ f. Bounded f ms) (advance_folders ids fs)
unfolding advance_folders
advance_folders-Bounded ids ms [] h = tt
advance_folders-Bounded ids ms (f ∷ fs) (h, hs) = elim (Bool-cases (member f.id ids)) [
  | inl e ↦ rw e (
    Bounded-mono f (record f { highest_mod_seq = f.highest_mod_seq + 1 }) ms refl (omega arith)
        (omega arith) h,
    advance_folders-Bounded ids ms fs hs,
  )
  | inr e ↦ rw e (h, advance_folders-Bounded ids ms fs hs)
]

-- Rows go, and folders advance.
removed-IsConsistent :
    (p : Membership → Bool) (ids : List Text) (db : Db)
    → IsConsistent db
    → All (λ f. Bounded f (keep_rows p db.memberships)) (advance_folders ids db.folders)
removed-IsConsistent p ids db h =
    advance_folders-Bounded ids (keep_rows p db.memberships) db.folders
      (All-impl (λ f h. Bounded-keep_rows p f db.memberships h) db.folders h)

take_out-IsConsistent :
    (id : Text) (d : List Text) (t : Folder) (db : Db) (u : Done) (db' : Db)
    → with_no_ids d (pure tt) (take_out id d) db ≡ ok u db'
    → IsConsistent db
    → Bounded t db.memberships
    → IsConsistent db' × Bounded t db'.memberships
unfolding take_out delete_rows
take_out-IsConsistent id [] t db u db' h consistent b =
    rw (sym (ok-injective tt u db db' h).1) (consistent, b)
take_out-IsConsistent id (k ∷ d) t db u db' h consistent b =
    let p : Membership → Bool = λ m. not (of_message id (k ∷ d) m) in
    rw (sym (ok-injective tt u _ db' h).1)
      (removed-IsConsistent p (k ∷ d) db consistent, Bounded-keep_rows p t db.memberships b)

put_in-IsConsistent :
    (email : EmailRow) (t : Folder) (rows : List Membership) (present : Bool) (db : Db) (u : Done)
    (db' : Db)
    → put_in email t rows present db ≡ ok u db'
    → IsConsistent db
    → Bounded t db.memberships
    → Room 1 t
    → IsConsistent db'
unfolding put_in
put_in-IsConsistent email t rows true db u db' h consistent b room =
    rw (sym (ok-injective tt u db db' h).1) consistent
put_in-IsConsistent email t rows false db u db' h consistent b room =
    let (v, db1, added, h1) =
      then_tx-ok (add_membership t email.row_id (carried email rows) db) _ u db' h in
    rw (sym (ok-injective tt u db1 db' h1).1) (
      add_membership-IsConsistent t email.row_id (carried email rows) db v db1
        (All-impl (λ f h. inr h) db.folders consistent) b room added)

relocate_rows-IsConsistent :
    (email : EmailRow) (t : Folder) (rows : List Membership) (db : Db) (u : Done) (db' : Db)
    → IsConsistent db
    → Bounded t db.memberships
    → Room 1 t
    → relocate_rows email t rows db ≡ ok u db'
    → IsConsistent db'
unfolding relocate_rows
relocate_rows-IsConsistent email t rows db u db' consistent b room h =
    let d = displaced_from t.id rows in
    let (v, db1, taken, h1) =
      then_tx-ok (with_no_ids d (pure tt) (take_out email.row_id d) db) _ u db' h in
    let (consistent', b') = take_out-IsConsistent email.row_id d t db v db1 taken consistent b in
    put_in-IsConsistent email t rows (is_present t.id rows) db1 u db' h1 consistent' b' room

-- The rows that are purged keep the counters ahead.
pub purge_rows-IsConsistent :
    (rows : List Membership) (db : Db) (u : Done) (db' : Db)
    → purge_rows rows db ≡ ok u db'
    → IsConsistent db
    → IsConsistent db'
unfolding purge_rows purge_email_rows
purge_rows-IsConsistent [] db u db' h consistent =
    rw (sym (ok-injective tt u db db' h).1) consistent
purge_rows-IsConsistent (m ∷ ms) db u db' h consistent =
    let rows = keep_rows (of_email m.email_id) db.memberships in
    let (v, db1, purged, h1) =
      then_tx-ok (purge_email_rows m.email_id db) (λ _. purge_rows ms) u db' h in
    purge_rows-IsConsistent ms db1 u db' h1 (
      rw (sym (ok-injective tt v _ db1 purged).1)
        (removed-IsConsistent (λ r. not (of_email m.email_id r)) (folders_of rows) db consistent))

module _ (fresh : Fresh) (db : Db) (consistent : IsConsistent db) (room : HasRoom db)
    (few : length db.memberships + 2 < 2 ^ 32) (is_fresh : IsFresh fresh db) where
  -- appendFolderMembershipTx, where it commits, keeps the counters ahead.
  pub append_folder_membership-IsConsistent :
      (mailbox folder_name email : Text) (flags : List Text) (v : ℕ × ℕ) (db' : Db)
      → append_folder_membership fresh mailbox folder_name email flags db ≡ ok v db'
      → IsConsistent db'
  unfolding append_folder_membership folder_named
  append_folder_membership-IsConsistent mailbox folder_name email flags v db' h =
      let (u, db1, ensured, h1) = then_tx-ok (ensure_protocol_folders fresh mailbox db) _ v db' h in
      let (t, is_folder, h2) =
        found_step (find_folder mailbox folder_name db1.folders) db1 _ v db' h1 in
      let (consistent', room') =
        ensure_protocol_folders-keeps fresh mailbox db u db1 consistent room few is_fresh ensured in
      found-IsConsistent mailbox folder_name email (merge_flags [] flags (codes "add")) t db1 v db'
        consistent' room' is_folder h2

  -- The same of addFolderMembershipTx.
  pub add_folder_membership-IsConsistent :
      (mailbox folder_name email : Text) (u : Done) (db' : Db)
      → add_folder_membership fresh mailbox folder_name email db ≡ ok u db'
      → IsConsistent db'
  unfolding add_folder_membership folder_named
  add_folder_membership-IsConsistent mailbox folder_name email u db' h =
      let (w, db1, ensured, h1) = then_tx-ok (ensure_protocol_folders fresh mailbox db) _ u db' h in
      let (t, is_folder, h2) =
        found_step (find_folder mailbox folder_name db1.folders) db1 _ u db' h1 in
      let (consistent', room') =
        ensure_protocol_folders-keeps fresh mailbox db w db1 consistent room few is_fresh ensured in
      let (v, db2, added, h3) = then_tx-ok (add_membership t email [] db1) _ u db' h2 in
      rw (sym (ok-injective tt u db2 db' h3).1) (
        found-IsConsistent mailbox folder_name email [] t db1 v db2 consistent' room' is_folder
          added)

  -- The same of relocateFolderMembershipTx.
  pub relocate_folder_membership-IsConsistent :
      (email : EmailRow) (folder_name : Text) (u : Done) (db' : Db)
      → relocate_folder_membership fresh email folder_name db ≡ ok u db'
      → IsConsistent db'
  unfolding relocate_folder_membership folder_named
  relocate_folder_membership-IsConsistent email folder_name u db' h =
      let (w, db1, ensured, h1) =
        then_tx-ok (ensure_protocol_folders fresh email.mailbox db) _ u db' h in
      let (t, is_folder, h2) =
        found_step (find_folder email.mailbox folder_name db1.folders) db1 _ u db' h1 in
      let (consistent', room') =
        ensure_protocol_folders-keeps fresh email.mailbox db w db1 consistent room few is_fresh
          ensured in
      let space =
        find_folder-All (Room (length db1.memberships + 1)) email.mailbox folder_name db1.folders t
          is_folder room' in
      relocate_rows-IsConsistent email t
        (keep_rows (of_message email.row_id (folder_ids email.mailbox db1.folders)) db1.memberships)
        db1 u db' consistent'
        (find_folder-All (λ f. Bounded f db1.memberships) email.mailbox folder_name db1.folders t
          is_folder consistent')
        (omega (arith, space.0), omega (arith, space.1)) h2
