-- ===== src/Imap.antt =====
-- internal/imap/server.go: a folder as an IMAP client sees it, with `SplitProtocolFlags` of
-- internal/service/keywords.go. Package go-imap reads the commands and calls these methods.
pub mod Search
mod Tests
use elec_postal.Base.{
  ℕ, ◌+◌, ◌%◌, ◌^◌, Bool, true, false, not, ◌&&◌, ◌||◌, Option, none, some, List, [], ◌∷◌, ◌++◌,
  if◌then◌else◌,
}
use elec_postal.Text.{
  Text, codes, text_eq, is_nil, equal_fold, to_lower, trim_space, has_prefix, contains_text,
}
use elec_postal.SenderAuth.State.{State, ◌>>=◌, pure}

-- the fields of `ProtocolMessage` that the server reads
pub record Message : Type 0 where
  pub email_id : Text
  pub uid : ℕ
  pub flags : List Text
  pub keywords : List Text
  pub subject : Text
  pub body : Text

-- `goimap.SearchCriteria`: the fields that `matchesCriteria` reads. A set of numbers is its test
-- `Contains`; the header criteria are a list of a name and its values.
pub record Criteria : Type 0 where
  pub uid_set : Option (ℕ → Bool)
  pub with_flags : List Text
  pub without_flags : List Text
  pub text : List Text
  pub body_text : List Text
  pub header : List (Text × List Text)

unfoldable pub protocol_flags : Message → List Text
protocol_flags m = m.flags ++ m.keywords

unfoldable pub has_flag : List Text → Text → Bool
unfolding equal_fold
has_flag [] flag = false
has_flag (v ∷ flags) flag = equal_fold v flag || has_flag flags flag

abbrev in_uid_set : Option (ℕ → Bool) → ℕ → Bool
in_uid_set none n = true
in_uid_set (some contains) n = contains n

unfoldable pub has_all : List Text → List Text → Bool
unfolding has_flag
has_all flags [] = true
has_all flags (f ∷ fs) = if has_flag flags f then has_all flags fs else false

unfoldable pub has_none : List Text → List Text → Bool
unfolding has_flag
has_none flags [] = true
has_none flags (f ∷ fs) = if has_flag flags f then false else has_none flags fs

-- every text is found, whatever its case
unfoldable pub finds_all : Text → List Text → Bool
unfolding contains_text to_lower
finds_all lower [] = true
finds_all lower (v ∷ vs) = if contains_text lower (to_lower v) then finds_all lower vs else false

unfoldable pub headers_match : Text → List (Text × List Text) → Bool
unfolding finds_all equal_fold
headers_match lower [] = true
headers_match lower ((name, values) ∷ hs) =
    if equal_fold name (codes "subject") && not (finds_all lower values)
    then false
    else headers_match lower hs

unfoldable pub matches_criteria : Message → Criteria → Bool
unfolding protocol_flags has_all has_none finds_all headers_match
matches_criteria m c =
    in_uid_set c.uid_set m.uid
    && (has_all (protocol_flags m) c.with_flags
        && (has_none (protocol_flags m) c.without_flags
            && (finds_all (to_lower (m.subject ++ 13 ∷ 10 ∷ m.body)) c.text
                && (finds_all (to_lower m.body) c.body_text
                    && headers_match (to_lower m.subject) c.header))))

-- the number by which a command names the message at an index
unfoldable pub number : Bool → ℕ → Message → ℕ
number true i x = x.uid
number false i x = (i + 1) % 2 ^ 32

-- the loop of `SearchMessages` from an index
unfoldable pub search_from : Bool → Criteria → ℕ → List Message → List ℕ
unfolding matches_criteria number
search_from by_uid c i [] = []
search_from by_uid c i (x ∷ xs) =
    let rest = search_from by_uid c (i + 1) xs in
    if matches_criteria x c then number by_uid i x ∷ rest else rest

-- the loop of `UpdateMessagesFlags` and `transfer` from an index
unfoldable pub ids_from : Bool → (ℕ → Bool) → ℕ → List Message → List Text
unfolding number
ids_from by_uid contains i [] = []
ids_from by_uid contains i (x ∷ xs) =
    let rest = ids_from by_uid contains (i + 1) xs in
    if contains (number by_uid i x) then x.email_id ∷ rest else rest

-- the messages of which `Expunge` takes leave
unfoldable pub flagged_deleted : List Message → List Text
unfolding has_flag
flagged_deleted [] = []
flagged_deleted (x ∷ xs) =
    let rest = flagged_deleted xs in
    if has_flag x.flags (codes "\\Deleted") then x.email_id ∷ rest else rest

unfoldable pub count_unseen : List Message → ℕ
unfolding has_flag
count_unseen [] = 0
count_unseen (x ∷ xs) =
    let n = count_unseen xs in if has_flag x.flags (codes "\\Seen") then n else (n + 1) % 2 ^ 32

unfoldable pub special_use_attributes : Text → List Text
unfolding to_lower trim_space text_eq
special_use_attributes value =
    let name = to_lower (trim_space value) in
    if text_eq name (codes "\\sent")
    then codes "\\Sent" ∷ []
    else if text_eq name (codes "\\drafts")
    then codes "\\Drafts" ∷ []
    else if text_eq name (codes "\\junk")
    then codes "\\Junk" ∷ []
    else if text_eq name (codes "\\trash")
    then codes "\\Trash" ∷ []
    else if text_eq name (codes "\\archive")
    then codes "\\Archive" ∷ []
    else []

abbrev onto_stored : Text → List Text × List Text → List Text × List Text
onto_stored flag (stored, keywords) = (flag ∷ stored, keywords)

abbrev onto_keywords : Text → List Text × List Text → List Text × List Text
onto_keywords flag (stored, keywords) = (stored, flag ∷ keywords)

-- the flags of the membership, and the keywords
unfoldable pub split_protocol_flags : List Text → List Text × List Text
unfolding trim_space has_prefix
split_protocol_flags [] = ([], [])
split_protocol_flags (raw ∷ flags) =
    let rest = split_protocol_flags flags in
    let flag = trim_space raw in
    if is_nil flag
    then rest
    else if has_prefix flag (codes "\\") || has_prefix flag (codes "$")
    then onto_stored flag rest
    else onto_keywords flag rest

-- How a STORE command changes flags.
pub data FlagsOp : Type 0 where
  set_flags add_flags remove_flags : FlagsOp

unfoldable pub mode_of : FlagsOp → Text
mode_of set_flags = codes "replace"
mode_of add_flags = codes "add"
mode_of remove_flags = codes "remove"

-- The interface `Backend`, as far as the commands here call it; none and false are errors.
pub record Backend (W : Type 0) : Type 0 where
  pub list_folder : Text → Text → State W (Option (List Message))
  pub move_messages : Text → Text → Text → List Text → State W Bool
  pub copy_messages : Text → Text → Text → List Text → State W Bool
  pub delete_messages : Text → Text → List Text → State W Bool
  pub store_flags : Text → Text → List Text → List Text → Text → State W Bool
  pub set_keywords : Text → Text → List Text → List Text → Text → State W Bool

module _ {W : Type 0} (b : Backend W) (mailbox folder_name : Text) where
  abbrev listed : {A : Type 0} → A → (List Message → State W A) → Option (List Message) → State W A
  listed e f none = pure e
  listed e f (some msgs) = f msgs

  unfoldable pub search_messages : Bool → Criteria → State W (Option (List ℕ))
  unfolding search_from
  search_messages by_uid c = do
    msgs ← b.list_folder mailbox folder_name
    listed none (λ xs. pure (some (search_from by_uid c 0 xs))) msgs

  abbrev pub transfer_ids : Text → Bool → List Text → State W Bool
  transfer_ids dest true ids = b.move_messages mailbox folder_name dest ids
  transfer_ids dest false ids = b.copy_messages mailbox folder_name dest ids

  unfoldable pub transfer : Bool → (ℕ → Bool) → Text → Bool → State W Bool
  unfolding ids_from
  transfer by_uid contains dest moving = do
    msgs ← b.list_folder mailbox folder_name
    listed false (λ xs. transfer_ids dest moving (ids_from by_uid contains 0 xs)) msgs

  abbrev expunge_ids : List Text → State W Bool
  expunge_ids [] = pure true
  expunge_ids (id ∷ ids) = b.delete_messages mailbox folder_name (id ∷ ids)

  unfoldable pub expunge : State W Bool
  unfolding flagged_deleted
  expunge = do
    msgs ← b.list_folder mailbox folder_name
    listed false (λ xs. expunge_ids (flagged_deleted xs)) msgs

  abbrev then_keywords : List Text → List Text → Text → Bool → State W Bool
  then_keywords ids names mode false = pure false
  then_keywords ids names mode true = b.set_keywords mailbox folder_name ids names mode

  abbrev store_ids : List Text → List Text × List Text → Text → State W Bool
  store_ids ids (stored, names) mode = do
    ok ← b.store_flags mailbox folder_name ids stored mode
    then_keywords ids names mode ok

  unfoldable pub update_messages_flags : Bool → (ℕ → Bool) → FlagsOp → List Text → State W Bool
  unfolding ids_from split_protocol_flags mode_of
  update_messages_flags by_uid contains op flags = do
    msgs ← b.list_folder mailbox folder_name
    listed false
        (λ xs. store_ids (ids_from by_uid contains 0 xs) (split_protocol_flags flags) (mode_of op))
        msgs
