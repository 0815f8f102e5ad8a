-- ===== src/MailStore/Folders.antt =====
-- Folder names and the folders every mailbox has, in internal/service/protocol_store.go.
use elec_postal.Base.{ℕ, ◌%◌, ◌^◌, Bool, true, Option, none, some, List, [], ◌∷◌, if◌then◌else◌}
use elec_postal.Text.{Text, codes, text_eq, equal_fold, to_lower, trim_space}
use elec_postal.MailStore.Tables.{Folder, ok, Tx, ◌>>◌, Done, find_folder}

unfoldable pub protocol_folder_name : Text → Text
unfolding to_lower trim_space text_eq
protocol_folder_name folder =
    let name = to_lower (trim_space folder) in
    if text_eq name (codes "sent")
    then codes "Sent"
    else if text_eq name (codes "drafts")
    then codes "Drafts"
    else if text_eq name (codes "spam")
    then codes "Spam"
    else if text_eq name (codes "trash")
    then codes "Trash"
    else if text_eq name (codes "archive")
    then codes "Archive"
    else codes "INBOX"

unfoldable pub http_folder_for_protocol_name : Text → Option Text
unfolding to_lower trim_space text_eq
http_folder_for_protocol_name folder =
    let name = to_lower (trim_space folder) in
    if text_eq name (codes "inbox")
    then some (codes "inbox")
    else if text_eq name (codes "sent")
    then some (codes "sent")
    else if text_eq name (codes "drafts")
    then some (codes "drafts")
    else if text_eq name (codes "spam")
    then some (codes "spam")
    else if text_eq name (codes "trash")
    then some (codes "trash")
    else if text_eq name (codes "archive")
    then some (codes "archive")
    else none

abbrev or_inbox : Option Text → Text
or_inbox none = codes "inbox"
or_inbox (some name) = name

unfoldable pub http_folder_name : Text → Text
unfolding http_folder_for_protocol_name
http_folder_name folder = or_inbox (http_folder_for_protocol_name folder)

unfoldable pub is_trash_folder_name : Text → Bool
unfolding equal_fold trim_space
is_trash_folder_name name = equal_fold (trim_space name) (codes "Trash")

abbrev pub default_protocol_folders : List (Text × Text)
default_protocol_folders =
    (codes "INBOX", codes "\\Inbox")
    ∷ (codes "Sent", codes "\\Sent")
    ∷ (codes "Drafts", codes "\\Drafts")
    ∷ (codes "Spam", codes "\\Junk")
    ∷ (codes "Trash", codes "\\Trash")
    ∷ (codes "Archive", codes "\\Archive")
    ∷ []

-- What a call reads besides the database: the clock, in seconds, and the identifier that the next
-- folder of that name gets.
pub record Fresh : Type 0 where
  pub now : ℕ
  pub folder_key : Text → Text → Text

abbrev pub new_folder : Fresh → Text → Text → Text → Folder
new_folder fresh mailbox folder_name use_flag = record {
  id = fresh.folder_key mailbox folder_name;
  mailbox_id = mailbox;
  name = folder_name;
  uid_validity = fresh.now % 2 ^ 32;
  next_uid = 1;
  highest_mod_seq = 1;
  special_use = use_flag;
  subscribed = true;
}

abbrev pub add_missing : Fresh → Text → Text × Text → Option Folder → Tx Done
add_missing fresh mailbox (folder_name, use_flag) (some f) db = ok tt db
add_missing fresh mailbox (folder_name, use_flag) none db =
    ok tt (record db { folders = new_folder fresh mailbox folder_name use_flag ∷ db.folders })

unfoldable pub ensure_folders : Fresh → Text → List (Text × Text) → Tx Done
unfolding find_folder
ensure_folders fresh mailbox [] db = ok tt db
ensure_folders fresh mailbox (spec ∷ specs) db =
    (add_missing fresh mailbox spec (find_folder mailbox spec.0 db.folders)
        >> ensure_folders fresh mailbox specs)
      db

unfoldable pub ensure_protocol_folders : Fresh → Text → Tx Done
unfolding ensure_folders
ensure_protocol_folders fresh mailbox = ensure_folders fresh mailbox default_protocol_folders
