-- ===== src/MailStore/Counters.antt =====
-- The counters of the folders: every UID of a folder is below its next UID, and every mod-sequence
-- at most its highest.
pub mod Kept
pub mod Rows
pub mod Places
pub mod Commits
pub mod Reach
use elec_postal.Base.{
  ℕ, ◌+◌, ◌^◌, ◌≤◌, ◌<◌, ◌≡◌, ◌⊎◌, inl, inr, refl, sym, Bool, ◌&&◌, some, List, [], ◌∷◌, arith,
  Bool-cases, All, All-impl, length,
}
use elec_postal.Text.{Text, text_eq, text_eq_iff}
use elec_postal.MailStore.Tables.{
  Folder, Membership, Db, ok, find_folder, keep_rows, create_row, replace_folder, next32, next64,
}
use elec_postal.MailStore.Messages.{filed, bumped, create_rows}
use elec_postal.MailStore.View.{then_tx-ok, ok-injective, create_row-ok}

-- the counters of a folder against one row
abbrev pub Below : Folder → Membership → Type 0
Below f m = m.folder_id ≡ f.id → (m.uid < f.next_uid) × (m.mod_seq ≤ f.highest_mod_seq)

abbrev pub Bounded : Folder → List Membership → Type 0
Bounded f ms = All (Below f) ms

abbrev pub IsConsistent : Db → Type 0
IsConsistent db = All (λ f. Bounded f db.memberships) db.folders

-- The counters have room for this many steps.
abbrev pub Room : ℕ → Folder → Type 0
Room n f = (f.next_uid + n < 2 ^ 32) × (f.highest_mod_seq + n < 2 ^ 64)

-- Every folder but this one is bounded.
abbrev pub Beside : Text → List Membership → Folder → Type 0
Beside id ms f = (f.id ≡ id) ⊎ Bounded f ms

pub find_folder-All {ℓ} :
    (P : Folder → Type ℓ) (mailbox folder_name : Text) (fs : List Folder) (f : Folder)
    → find_folder mailbox folder_name fs ≡ some f
    → All P fs
    → P f
unfolding find_folder
find_folder-All P mailbox folder_name [] f h p = absurd (cc h)
find_folder-All P mailbox folder_name (g ∷ fs) f h (p, ps) =
    elim (Bool-cases (text_eq g.mailbox_id mailbox && text_eq g.name folder_name)) [
      | inl e ↦ let same : g ≡ f = ground (arith, e, h) in rw (sym same) p
      | inr e ↦ find_folder-All P mailbox folder_name fs f (ground (arith, e, h)) ps
    ]

pub Bounded-keep_rows :
    (p : Membership → Bool) (f : Folder) (ms : List Membership)
    → Bounded f ms
    → Bounded f (keep_rows p ms)
unfolding keep_rows
Bounded-keep_rows p f [] h = tt
Bounded-keep_rows p f (m ∷ ms) (h, hs) = elim (Bool-cases (p m)) [
  | inl e ↦ rw e (h, Bounded-keep_rows p f ms hs)
  | inr e ↦ rw e (Bounded-keep_rows p f ms hs)
]

-- Larger counters bound what smaller ones do.
pub Bounded-mono :
    (f g : Folder) (ms : List Membership)
    → g.id ≡ f.id
    → f.next_uid ≤ g.next_uid
    → f.highest_mod_seq ≤ g.highest_mod_seq
    → Bounded f ms
    → Bounded g ms
Bounded-mono f g ms same uid seq =
    All-impl (λ m below here. grind (arith, below, here, same, uid, seq)) ms

-- A folder that is saved is bounded, so all are.
pub replace_folder-All :
    (t : Folder) (ms : List Membership) (fs : List Folder)
    → All (Beside t.id ms) fs
    → Bounded t ms
    → All (λ f. Bounded f ms) (replace_folder t fs)
replace_folder-All t ms [] h b = tt
replace_folder-All t ms (f ∷ fs) (h, hs) b = elim (Bool-cases (text_eq f.id t.id)) [
  | inl e ↦ rw e (b, replace_folder-All t ms fs hs b)
  | inr e ↦ rw e (elim h [
    | inl same ↦ absurd (ground (arith, e, same, text_eq_iff f.id t.id))
    | inr bounded ↦ (bounded, replace_folder-All t ms fs hs b)
  ])
]

-- A new row of one folder does not concern the others, and its folder counts it.
pub Bounded-other :
    (f t : Folder) (m : Membership) (ms : List Membership)
    → Beside t.id ms f
    → Beside t.id (filed t m ∷ ms) f
Bounded-other f t m ms (inl same) = inl same
Bounded-other f t m ms (inr h) = elim (Bool-cases (text_eq f.id t.id)) [
  | inl e ↦ inl ((text_eq_iff f.id t.id).0 e)
  | inr e ↦ inr ((λ same. absurd (ground (arith, e, same, text_eq_iff f.id t.id))), h)
]

pub next32-eq : (n : ℕ) → n + 1 < 2 ^ 32 → next32 n ≡ n + 1
unfolding next32
next32-eq n h = omega (arith, h)

pub next64-eq : (n : ℕ) → n + 1 < 2 ^ 64 → next64 n ≡ n + 1
unfolding next64
next64-eq n h = omega (arith, h)

pub Bounded-filed :
    (t : Folder) (m : Membership) (ms : List Membership)
    → Room 1 t
    → Bounded t ms
    → Bounded (bumped t) (filed t m ∷ ms)
Bounded-filed t m ms room h =
    let uid = next32-eq t.next_uid room.0 in
    let seq = next64-eq t.highest_mod_seq room.1 in
    (
      (λ same. (omega (arith, uid), omega (arith, seq))),
      Bounded-mono t (bumped t) ms refl (omega (arith, uid)) (omega (arith, seq)) h,
    )

-- What the creation of rows keeps: the folder that is filed into, counted along, bounds its rows, and
-- the others theirs.
pub create_rows-Bounded :
    (t : Folder) (rows : List Membership) (db : Db) (t' : Folder) (db' : Db)
    → create_rows t rows db ≡ ok t' db'
    → Room (length rows) t
    → Bounded t db.memberships
    → All (Beside t.id db.memberships) db.folders
    → (t'.id ≡ t.id) × Bounded t' db'.memberships × All (Beside t.id db'.memberships) db'.folders
unfolding create_rows
create_rows-Bounded t [] db t' db' h room b others =
    let (same_t, same_db) = ok-injective t t' db db' h in
    rw (sym same_t, sym same_db) (refl, b, others)
create_rows-Bounded t (row ∷ rows) db t' db' h room b others =
    let (u, db1, created, rest) = then_tx-ok (create_row (filed t row) db) _ t' db' h in
    let (free, same) = create_row-ok (filed t row) db u db1 created in
    let uid = next32-eq t.next_uid (omega (arith, room.0)) in
    let seq = next64-eq t.highest_mod_seq (omega (arith, room.1)) in
    let added = record db { memberships = filed t row ∷ db.memberships } in
    create_rows-Bounded (bumped t) rows added t' db' (rw (sym same) rest)
      (omega (arith, uid, room.0), omega (arith, seq, room.1))
      (Bounded-filed t row db.memberships (omega (arith, room.0), omega (arith, room.1)) b)
      (All-impl (λ f h. Bounded-other f t row db.memberships h) db.folders others)
