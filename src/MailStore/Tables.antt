-- ===== src/MailStore/Tables.antt =====
-- The tables of internal/database/models.go that internal/service/protocol_store.go works on, and
-- transactions over them.
use elec_postal.Base.{
  ℕ, ◌+◌, ◌%◌, ◌^◌, Bool, false, not, ◌&&◌, ◌||◌, Option, none, some, List, [], ◌∷◌, ◌==◌,
  if◌then◌else◌,
}
use elec_postal.Text.{Text, text_eq, member}

-- `MailFolder`, without its time stamps
pub record Folder : Type 0 where
  pub id : Text
  pub mailbox_id : Text
  pub name : Text
  pub uid_validity : ℕ
  pub next_uid : ℕ
  pub highest_mod_seq : ℕ
  pub special_use : Text
  pub subscribed : Bool

-- `FolderMessage`, without its time stamps; the flags stand for their JSON text
pub record Membership : Type 0 where
  pub folder_id : Text
  pub email_id : Text
  pub uid : ℕ
  pub flags : List Text
  pub mod_seq : ℕ

-- the columns of `Email` that say where a message is and which flags it has
pub record EmailRow : Type 0 where
  pub row_id : Text
  pub account : Text
  pub mailbox : Text
  pub folder : Text
  pub is_read : Bool
  pub is_starred : Bool
  pub is_draft : Bool
  pub trashed_at : Option ℕ
  pub spam_at : Option ℕ

-- the identifiers of the mailboxes, and three tables
pub record Db : Type 0 where
  pub mailboxes : List Text
  pub folders : List Folder
  pub memberships : List Membership
  pub emails : List EmailRow

pub data Error : Type 0 where
  not_found : Error
  constraint : Error

-- How a transaction ends: an error rolls back, so there is no new database.
pub data Result (A : Type 0) : Type 0 where
  ok : A → Db → Result A
  err : Error → Result A

abbrev pub Tx : Type 0 → Type 0
Tx A = Db → Result A

abbrev pub then_tx : {A B : Type 0} → Result A → (A → Tx B) → Result B
then_tx (ok a db) f = f a db
then_tx (err e) f = err e

infixl 10 ◌>>=◌
abbrev pub ◌>>=◌ : {A B : Type 0} → Tx A → (A → Tx B) → Tx B
◌>>=◌ m f db = then_tx (m db) f

infixl 10 ◌>>◌
abbrev pub ◌>>◌ : {A B : Type 0} → Tx A → Tx B → Tx B
◌>>◌ m k db = then_tx (m db) (λ _. k)

abbrev pub pure : {A : Type 0} → A → Tx A
pure a db = ok a db

abbrev pub Done : Type 0
Done = Unit {0}

unfoldable pub find_folder : Text → Text → List Folder → Option Folder
find_folder mailbox wanted [] = none
find_folder mailbox wanted (f ∷ fs) =
    let rest = find_folder mailbox wanted fs in
    if text_eq f.mailbox_id mailbox && text_eq f.name wanted then some f else rest

abbrev pub or_not_found : Option Folder → Tx Folder
or_not_found none db = err not_found
or_not_found (some f) db = ok f db

-- the query for a folder by mailbox and name, where nothing found is an error
unfoldable pub folder_named : Text → Text → Tx Folder
unfolding find_folder
folder_named mailbox wanted db = or_not_found (find_folder mailbox wanted db.folders) db

-- `folder_id = ? AND email_id IN ?`
abbrev pub selected : Text → List Text → Membership → Bool
selected folder_key ids m = text_eq m.folder_id folder_key && member m.email_id ids

unfoldable pub keep_rows : (Membership → Bool) → List Membership → List Membership
keep_rows p [] = []
keep_rows p (m ∷ ms) = let rest = keep_rows p ms in if p m then m ∷ rest else rest

unfoldable pub rows_in : Text → List Text → Db → List Membership
unfolding keep_rows member
rows_in folder_key ids db = keep_rows (selected folder_key ids) db.memberships

unfoldable pub delete_rows : (Membership → Bool) → Tx Done
unfolding keep_rows
delete_rows p db = ok tt (record db { memberships = keep_rows (λ m. not (p m)) db.memberships })

-- The primary key of a row, or its UID within the folder, is taken.
abbrev pub clashes : Membership → Membership → Bool
clashes m n = text_eq n.folder_id m.folder_id && (text_eq n.email_id m.email_id || n.uid == m.uid)

unfoldable pub is_taken : Membership → List Membership → Bool
is_taken m [] = false
is_taken m (n ∷ ms) = clashes m n || is_taken m ms

-- `tx.Create` on `folder_messages`, with its two unique indexes
unfoldable pub create_row : Membership → Tx Done
unfolding is_taken
create_row m db =
    if is_taken m db.memberships
    then err constraint
    else ok tt (record db { memberships = m ∷ db.memberships })

abbrev pub replace_folder : Folder → List Folder → List Folder
replace_folder f [] = []
replace_folder f (g ∷ fs) = (if text_eq g.id f.id then f else g) ∷ replace_folder f fs

-- `tx.Save` of a folder that is there
unfoldable pub save_folder : Folder → Tx Done
save_folder f db = ok tt (record db { folders = replace_folder f db.folders })

abbrev pub replace_row : Membership → List Membership → List Membership
replace_row m [] = []
replace_row m (n ∷ ms) =
    (if text_eq n.folder_id m.folder_id && text_eq n.email_id m.email_id then m else n)
    ∷ replace_row m ms

-- `tx.Save` of a membership that is there
unfoldable pub save_row : Membership → Tx Done
save_row m db = ok tt (record db { memberships = replace_row m db.memberships })

-- uint32 and uint64
unfoldable pub next32 : ℕ → ℕ
next32 n = (n + 1) % 2 ^ 32

unfoldable pub next64 : ℕ → ℕ
next64 n = (n + 1) % 2 ^ 64
