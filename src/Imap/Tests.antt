-- ===== src/Imap/Tests.antt =====
-- IMAP commands on a small folder.
use elec_postal.Base.{ℕ, ◌≡◌, refl, Bool, true, false, none, some, List, [], ◌∷◌, arith}
use elec_postal.Text.{Text, codes}
use elec_postal.Imap.{
  Message, Criteria, search_from, ids_from, split_protocol_flags, expunge, Backend,
  special_use_attributes,
}
use elec_postal.Imap.Search.{matching, listed_in, ids_from-search_from, numbers-IsIncreasing}

abbrev message : Text → ℕ → List Text → Message
message key n flags = record {
  email_id = key;
  uid = n;
  flags = flags;
  keywords = codes "work" ∷ [];
  subject = codes "Hello";
  body = codes "world";
}

abbrev msgs : List Message
msgs =
    message (codes "x") 5 (codes "\\Seen" ∷ [])
    ∷ message (codes "y") 7 (codes "\\Deleted" ∷ [])
    ∷ message (codes "z") 9 (codes "\\Seen" ∷ [])
    ∷ []

abbrev seen : Criteria
seen = record {
  uid_set = none;
  with_flags = codes "\\seen" ∷ [];
  without_flags = [];
  text = codes "HELLO" ∷ [];
  body_text = [];
  header = (codes "Subject", codes "hell" ∷ []) ∷ [];
}

search_test : search_from true seen 0 msgs ≡ 5 ∷ 9 ∷ []
unfolding search_from
search_test = refl

split_test :
    split_protocol_flags (codes "\\Seen" ∷ codes " work " ∷ codes "$Junk" ∷ codes " " ∷ [])
    ≡ (codes "\\Seen" ∷ codes "$Junk" ∷ [], codes "work" ∷ [])
unfolding split_protocol_flags
split_test = refl

special_use_test : special_use_attributes (codes "\\Junk ") ≡ codes "\\Junk" ∷ []
unfolding special_use_attributes
special_use_test = refl

-- a backend whose state is the list of the messages that were deleted
abbrev log : Backend (List Text)
log = record {
  list_folder = λ mailbox folder_name w. (some msgs, w);
  move_messages = λ mailbox folder_name dest ids w. (true, w);
  copy_messages = λ mailbox folder_name dest ids w. (true, w);
  delete_messages = λ mailbox folder_name ids w. (true, ids);
  store_flags = λ mailbox folder_name ids flags mode w. (true, w);
  set_keywords = λ mailbox folder_name ids flags mode w. (true, w);
}

expunge_test : expunge log (codes "m") (codes "INBOX") [] ≡ (true, codes "y" ∷ [])
unfolding expunge
expunge_test = refl

abbrev first_and_third : ℕ → Bool
first_and_third n = listed_in n (search_from false seen 0 msgs)

ids_from-search_from_example : ids_from false first_and_third 0 msgs ≡ matching seen msgs
ids_from-search_from_example =
    ids_from-search_from false seen first_and_third msgs (numbers-IsIncreasing 0 msgs (omega arith))
      (λ n. refl)
