-- ===== src/MailStore/Flags.antt =====
-- The flags of a message: `mergeFlags`, `hasSystemFlag` and `emailFolderFlags` of
-- internal/service/protocol_store.go.
pub mod Laws
use elec_postal.Base.{Bool, true, false, ◌&&◌, ◌||◌, List, [], ◌∷◌, ◌++◌, ltb, ◌==◌, if◌then◌else◌}
use elec_postal.Text.{Text, codes, text_eq, equal_fold}
use elec_postal.MailStore.Tables.{EmailRow}

-- the order of `sort.Strings`
unfoldable pub text_lt : Text → Text → Bool
text_lt a [] = false
text_lt [] (y ∷ b) = true
text_lt (x ∷ a) (y ∷ b) = ltb x y || (x == y && text_lt a b)

-- The Go map is kept as the sorted list of its keys. `set[value] = true`
unfoldable pub insert_flag : Text → List Text → List Text
unfolding text_lt text_eq
insert_flag x [] = x ∷ []
insert_flag x (y ∷ ys) =
    let rest = insert_flag x ys in
    if text_eq x y then y ∷ ys else if text_lt x y then x ∷ y ∷ ys else y ∷ rest

unfoldable pub insert_flags : List Text → List Text → List Text
unfolding insert_flag
insert_flags [] set = set
insert_flags (x ∷ xs) set = insert_flags xs (insert_flag x set)

-- `delete(set, value)`
unfoldable pub delete_flag : Text → List Text → List Text
unfolding text_eq
delete_flag x [] = []
delete_flag x (y ∷ ys) = let rest = delete_flag x ys in if text_eq x y then rest else y ∷ rest

unfoldable pub delete_flags : List Text → List Text → List Text
unfolding delete_flag
delete_flags [] set = set
delete_flags (x ∷ xs) set = delete_flags xs (delete_flag x set)

unfoldable pub merge_flags : List Text → List Text → Text → List Text
unfolding insert_flags delete_flags
merge_flags current requested mode =
    let set = insert_flags current [] in
    if text_eq mode (codes "replace")
    then insert_flags requested []
    else if text_eq mode (codes "add")
    then insert_flags requested set
    else if text_eq mode (codes "remove")
    then delete_flags requested set
    else set

unfoldable pub has_system_flag : List Text → Text → Bool
unfolding equal_fold
has_system_flag [] flag = false
has_system_flag (value ∷ flags) flag = equal_fold value flag || has_system_flag flags flag

abbrev flag_if : Bool → Text → List Text
flag_if true flag = flag ∷ []
flag_if false flag = []

unfoldable pub email_folder_flags : EmailRow → List Text
email_folder_flags email =
    flag_if email.is_read (codes "\\Seen")
    ++ flag_if email.is_starred (codes "\\Flagged")
    ++ flag_if email.is_draft (codes "\\Draft")
