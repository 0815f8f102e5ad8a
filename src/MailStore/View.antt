-- ===== src/MailStore/View.antt =====
-- The abstract view of the mail store, which message is in which folder, and what the operations
-- on the tables do to it.
pub mod Moves
pub mod Relocations
use elec_postal.Base.{◌≡◌, refl, sym, Bool, true, false, ◌&&◌, ◌||◌, List, [], ◌∷◌, arith}
use elec_postal.Text.{Text, text_eq, text_eq_iff, text_eq_refl, member}
use elec_postal.MailStore.Tables.{
  Folder, Membership, Db, Result, ok, err, Tx, then_tx, Done, keep_rows, is_taken, create_row,
}
use elec_postal.MailStore.Messages.{filed, bumped, email_ids, create_rows}

-- The message is in the folder.
abbrev pub holds : List Membership → Text → Text → Bool
holds [] f e = false
holds (m ∷ ms) f e = (text_eq m.folder_id f && text_eq m.email_id e) || holds ms f e

-- Inversion of a step of a transaction that went through.
pub then_tx-ok :
    {A B : Type 0} (r : Result A) (k : A → Tx B) (b : B) (db' : Db)
    → then_tx r k ≡ ok b db'
    → (a : A) × (db : Db) × (r ≡ ok a db) × (k a db ≡ ok b db')
then_tx-ok (ok a db) k b db' h = (a, db, refl, h)
then_tx-ok (err e) k b db' h = absurd (cc h)

pub ok-injective : {A : Type 0} (a b : A) (db db' : Db) → ok a db ≡ ok b db' → (a ≡ b) × (db ≡ db')
ok-injective a b db db' h = (cc h, cc h)

-- A selection of rows by folder and message.
pub holds-keep_rows :
    (q : Text → Text → Bool) (ms : List Membership) (f e : Text)
    → holds (keep_rows (λ m. q m.folder_id m.email_id) ms) f e ≡ (holds ms f e && q f e)
unfolding keep_rows
holds-keep_rows q [] f e = refl
holds-keep_rows q (m ∷ ms) f e =
    ground (arith, holds-keep_rows q ms f e, text_eq_iff m.folder_id f, text_eq_iff m.email_id e)

pub member-rows :
    (k : Text) (ids : List Text) (e : Text) (ms : List Membership)
    → member e (email_ids (keep_rows (λ m. text_eq m.folder_id k && member m.email_id ids) ms))
      ≡ (holds ms k e && member e ids)
unfolding keep_rows member
member-rows k ids e [] = refl
member-rows k ids e (m ∷ ms) =
    ground (arith, member-rows k ids e ms, text_eq_iff e m.email_id, text_eq_iff m.email_id e)

is_taken-holds :
    (m : Membership) (ms : List Membership)
    → is_taken m ms ≡ false
    → holds ms m.folder_id m.email_id ≡ false
unfolding is_taken
is_taken-holds m [] h = refl
is_taken-holds m (n ∷ ms) h = ground (arith, is_taken-holds m ms)

pub create_row-ok :
    (m : Membership) (db : Db) (u : Done) (db' : Db)
    → create_row m db ≡ ok u db'
    → (is_taken m db.memberships ≡ false) × (db' ≡ record db { memberships = m ∷ db.memberships })
unfolding create_row
create_row-ok m db u db' h = ground arith

-- What the creation of rows does to the view: the rows were not in the folder, and are there now.
abbrev pub Created : Folder → List Membership → Db → Folder → Db → Type 0
Created t rows db t' db' =
    (t'.id ≡ t.id)
    × (db'.folders ≡ db.folders)
    × ((f e : Text)
        → holds db'.memberships f e
          ≡ (holds db.memberships f e || (text_eq t.id f && member e (email_ids rows))))
    × ((e : Text) → member e (email_ids rows) ≡ true → holds db.memberships t.id e ≡ false)

Created-step :
    (t : Folder) (row : Membership) (rows : List Membership) (db : Db) (t' : Folder) (db' : Db)
    → holds db.memberships t.id row.email_id ≡ false
    → Created (bumped t) rows (record db { memberships = filed t row ∷ db.memberships }) t' db'
    → Created t (row ∷ rows) db t' db'
unfolding member
Created-step t row rows db t' db' free (same, folders, view, new) = (
  same,
  folders,
  λ f e.
      ground (
        arith,
        view f e,
        text_eq_iff t.id f,
        text_eq_iff row.email_id e,
        text_eq_iff e row.email_id,
      ),
  λ e h. ground (arith, new e, h, free, text_eq_iff e row.email_id, text_eq_refl t.id),
)

Created-nil : (t : Folder) (db : Db) → Created t [] db t db
unfolding member
Created-nil t db = (refl, refl, λ f e. ground arith, λ e h. absurd (cc h))

pub create_rows-Created :
    (t : Folder) (rows : List Membership) (db : Db) (t' : Folder) (db' : Db)
    → create_rows t rows db ≡ ok t' db'
    → Created t rows db t' db'
unfolding create_rows member
create_rows-Created t [] db t' db' h =
    let (same_t, same_db) = ok-injective t t' db db' h in
    rw (sym same_t, sym same_db) (Created-nil t db)
create_rows-Created t (row ∷ rows) db t' db' h =
    let (u, db1, created, rest) =
      then_tx-ok (create_row (filed t row) db) (λ _. create_rows (bumped t) rows) t' db' h in
    let (free, same) = create_row-ok (filed t row) db u db1 created in
    Created-step t row rows db t' db' (is_taken-holds (filed t row) db.memberships free) (
      create_rows-Created (bumped t) rows (record db { memberships = filed t row ∷ db.memberships })
        t' db' (rw (sym same) rest))
