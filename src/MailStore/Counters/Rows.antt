-- ===== src/MailStore/Counters/Rows.antt =====
-- Flags, relocation, removal and the default folders keep the counters of the folders ahead.
use elec_postal.Base.{
  ℕ, ◌+◌, ◌<◌, ◌^◌, ◌≡◌, inl, inr, refl, sym, ap, ◌&&◌, List, [], ◌∷◌, arith, Bool-cases, All,
  All-impl, length,
}
use elec_postal.Text.{Text, text_eq, text_eq_iff}
use elec_postal.MailStore.Tables.{
  Folder, Membership, Db, ok, Tx, find_folder, folder_named, keep_rows, rows_in, selected,
  save_folder, save_row, replace_row,
}
use elec_postal.MailStore.Messages.{
  StoreResult, flagged, is_stale, flag_one, flag_rows, store_protocol_flags,
}
use elec_postal.MailStore.View.{then_tx-ok, ok-injective}
use elec_postal.MailStore.View.Moves.{found_step}
use elec_postal.MailStore.Counters.{
  Below, Bounded, IsConsistent, Room, Beside, find_folder-All, Bounded-mono, replace_folder-All,
  next64-eq,
}
use elec_postal.MailStore.Counters.Kept.{HasRoom, length-keep_rows, advanced}

Bounded-replace_row :
    (f : Folder) (m : Membership) (ms : List Membership)
    → Below f m
    → Bounded f ms
    → Bounded f (replace_row m ms)
Bounded-replace_row f m [] h hs = tt
Bounded-replace_row f m (n ∷ ms) h (hn, hs) =
    elim (Bool-cases (text_eq n.folder_id m.folder_id && text_eq n.email_id m.email_id)) [
      | inl e ↦ rw e (h, Bounded-replace_row f m ms h hs)
      | inr e ↦ rw e (hn, Bounded-replace_row f m ms h hs)
    ]

-- a row of the folder with a UID that is in use
abbrev Own : Folder → Membership → Type 0
Own f m = (m.folder_id ≡ f.id) × (m.uid < f.next_uid)

selected-Own :
    (f : Folder) (ids : List Text) (ms : List Membership)
    → Bounded f ms
    → All (Own f) (keep_rows (selected f.id ids) ms)
unfolding keep_rows
selected-Own f ids [] h = tt
selected-Own f ids (m ∷ ms) (h, hs) = elim (Bool-cases (selected f.id ids m)) [
  | inl e ↦
      let here : m.folder_id ≡ f.id = ground (arith, e, text_eq_iff m.folder_id f.id) in
      rw e ((here, (h here).0), selected-Own f ids ms hs)
  | inr e ↦ rw e (selected-Own f ids ms hs)
]

module _ (flags : List Text) (mode : Text) (unchanged_since : ℕ) where
  Beside-flagged :
      (t : Folder) (row : Membership) (ms : List Membership) (f : Folder)
      → Own t row
      → Beside t.id ms f
      → Beside t.id (replace_row (flagged flags mode unchanged_since t row) ms) f
  Beside-flagged t row ms f own (inl same) = inl same
  Beside-flagged t row ms f own (inr h) = elim (Bool-cases (text_eq f.id t.id)) [
    | inl e ↦ inl ((text_eq_iff f.id t.id).0 e)
    | inr e ↦ inr (
        Bounded-replace_row f (flagged flags mode unchanged_since t row) ms
          (λ same. absurd (ground (arith, e, own.0, same, text_eq_iff f.id t.id))) h)
  ]

  flag_one-ok :
      (later : Folder → Tx (Folder × List StoreResult)) (t : Folder) (row : Membership) (db : Db)
      (r : Folder × List StoreResult) (db' : Db)
      → flag_one flags mode unchanged_since later t row db ≡ ok r db'
      → (r1 : Folder × List StoreResult) × (later (advanced t) (record db {
        memberships = replace_row (flagged flags mode unchanged_since t row) db.memberships;
      })
          ≡ ok r1 db')
        × (r.0 ≡ r1.0)
  unfolding flag_one save_row
  flag_one-ok later t row db r db' h =
      let (r1, db1, done, h1) = then_tx-ok (later (advanced t) _) _ r db' h in
      let (same, same_db) = ok-injective _ r db1 db' h1 in
      (r1, rw (sym same_db) done, ap (λ (x : Folder × List StoreResult). x.0) (sym same))

  flag_rows-Bounded :
      (t : Folder) (rows : List Membership) (db : Db) (r : Folder × List StoreResult) (db' : Db)
      → flag_rows flags mode unchanged_since t rows db ≡ ok r db'
      → All (Own t) rows
      → t.highest_mod_seq + length rows < 2 ^ 64
      → Bounded t db.memberships
      → All (Beside t.id db.memberships) db.folders
      → (r.0.id ≡ t.id)
        × Bounded r.0 db'.memberships
        × All (Beside t.id db'.memberships) db'.folders
  unfolding flag_rows
  flag_rows-Bounded t [] db r db' h own room b others =
      let (same_r, same_db) = ok-injective (t, []) r db db' h in
      rw (sym same_r, sym same_db) (refl, b, others)
  flag_rows-Bounded t (row ∷ rows) db r db' h (own, owns) room b others =
      elim (Bool-cases (is_stale flags mode unchanged_since row)) [
        | inl e ↦
            flag_rows-Bounded t rows db r db' (ground (arith, e, h)) owns (omega (arith, room)) b
              others
        | inr e ↦
            let (r1, h1, same) =
              flag_one-ok (λ f. flag_rows flags mode unchanged_since f rows) t row db r db'
                (ground (arith, e, h)) in
            let seq = next64-eq t.highest_mod_seq (omega (arith, room)) in
            let row' = flagged flags mode unchanged_since t row in
            let (same_id, b', others') =
              flag_rows-Bounded (advanced t) rows
                (record db { memberships = replace_row row' db.memberships }) r1 db' h1 owns
                (omega (arith, room, seq))
                (Bounded-replace_row (advanced t) row' db.memberships
                  (λ here. (own.1, omega (arith, seq)))
                  (Bounded-mono t (advanced t) db.memberships refl (omega arith)
                    (omega (arith, seq)) b))
                (All-impl (λ f h. Beside-flagged t row db.memberships f own h) db.folders others) in
            rw same (same_id, b', others')
      ]

  -- StoreProtocolFlags, where it commits and no counter overflows, keeps the counters ahead.
  pub store_protocol_flags-IsConsistent :
      (mailbox folder_name : Text) (ids : List Text) (db : Db) (r : List StoreResult) (db' : Db)
      → IsConsistent db
      → HasRoom db
      → store_protocol_flags flags mode unchanged_since mailbox folder_name ids db ≡ ok r db'
      → IsConsistent db'
  unfolding store_protocol_flags folder_named rows_in save_folder
  store_protocol_flags-IsConsistent mailbox folder_name ids db r db' consistent room h =
      let (t, is_folder, h1) =
        found_step (find_folder mailbox folder_name db.folders) db _ r db' h in
      let b =
        find_folder-All (λ f. Bounded f db.memberships) mailbox folder_name db.folders t is_folder
          consistent in
      let space =
        find_folder-All (Room (length db.memberships + 1)) mailbox folder_name db.folders t
          is_folder room in
      let rows = keep_rows (selected t.id ids) db.memberships in
      let fewer = length-keep_rows (selected t.id ids) db.memberships in
      let (r1, db1, flags_set, h2) =
        then_tx-ok (flag_rows flags mode unchanged_since t rows db) _ r db' h1 in
      let (same, b', others) =
        flag_rows-Bounded t rows db r1 db1 flags_set (selected-Own t ids db.memberships b)
          (omega (arith, space.1, fewer)) b (All-impl (λ f h. inr h) db.folders consistent) in
      rw (sym (ok-injective _ r _ db' h2).1)
        (replace_folder-All r1.0 db1.memberships db1.folders (rw same others) b')
