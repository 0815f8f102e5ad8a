-- ===== src/Pop3/Tests.antt =====
-- The theorems on POP3 at a concrete session.
use mathlib.Core.List.{Perm}
use elec_postal.Base.{
  ℕ, ◌≡◌, refl, true, false, none, some, List, [], ◌∷◌, ◌++◌, length, if◌then◌else◌,
}
use elec_postal.Text.{
  Text, codes, text_eq, split, replace_crlf, has_prefix, fields, trim_space, to_upper, join,
}
use elec_postal.Text.Number.{value, atoi}
use elec_postal.Pop3.Wire.{dot_stuff}
use elec_postal.Pop3.Wire.Framing.{read_lines, read_lines-dot_stuff}
use elec_postal.Pop3.Listing.{total, stat-scan}
use elec_postal.Pop3.Numbers.{Obeys, IsSent, top_lines, transaction-Obeys}
use elec_postal.Pop3.Deletion.{live_ids, all_ids, live-deleted_ids-perm, step-moved}
use elec_postal.Pop3.Access.{Reach, start, read, IsSafe, Reach-IsSafe}
use elec_postal.Pop3.{
  Message, Server, Backend, Session, opened, say, Reply, scan, stat, live, deleted_ids, select,
  no_such_message, transaction, step, authorization,
}

abbrev two : List Message
two =
    record { email_id = codes "m1"; uid = 7; size = 100 }
    ∷ record { email_id = codes "m2"; uid = 9; size = 40 }
    ∷ []

abbrev plain : Server
plain = record { tls = false; starttls = false }

abbrev server : Server
server = record { tls = true; starttls = true }

abbrev store : Backend
store = record {
  authenticate = λ user secret. if text_eq secret (codes "pw") then some (codes "box") else none;
  list_inbox = λ mailbox. some two;
  source = λ id. some (codes "A: b\r\n\r\n.x\r\n");
  read_message = λ raw. none;
  handshake = true;
}

-- the second message is marked
abbrev marked : Session
marked = record {
  secure = true;
  user = codes "ann";
  principal = some (codes "box");
  messages = two;
  deleted = 1 ∷ [];
}

stuffed :
    dot_stuff (codes "a\r\n.b\n.\n") ≡ codes "a" ∷ codes "..b" ∷ codes ".." ∷ [] ∷ codes "." ∷ []
unfolding dot_stuff split replace_crlf has_prefix
stuffed = refl

dele : step server store (record marked { deleted = [] }) (codes "dele 2\r\n") ≡ record {
  replies = Reply.ok (codes "marked for deletion") ∷ [];
  moved = none;
  next = some marked;
}
unfolding step transaction text_eq fields trim_space to_upper join select atoi
dele = refl

quit : (step server store marked (codes "QUIT\r\n")).moved ≡ some (codes "box", codes "m2" ∷ [])
unfolding step transaction text_eq fields trim_space to_upper join deleted_ids
quit = refl

stls_first : Reach server store false (record (opened false) { secure = true })
unfolding step authorization text_eq fields trim_space to_upper join
stls_first = read (codes "STLS\r\n") start refl

Reach-IsSafe_example : IsSafe server (record (opened false) { secure = true })
Reach-IsSafe_example = Reach-IsSafe server store stls_first

step-moved_example :
    (mailbox : Text) × (some (codes "box") ≡ some mailbox)
    × (◌≡◌ {A = Text × List Text}
        (codes "box", codes "m2" ∷ [])
        (mailbox, deleted_ids 0 two (1 ∷ [])))
    × ((step server store marked (codes "QUIT\r\n")).next ≡ none)
    × ((args : List Text) × (word : Text) × (fields (trim_space (codes "QUIT\r\n")) ≡ word ∷ args)
        × (to_upper word ≡ codes "QUIT"))
step-moved_example =
    step-moved server store marked (codes "QUIT\r\n") (codes "box", codes "m2" ∷ []) quit

live-deleted_ids-perm_example :
    Perm (live_ids (live 0 two (1 ∷ [])) ++ deleted_ids 0 two (1 ∷ [])) (all_ids two)
live-deleted_ids-perm_example = live-deleted_ids-perm 0 two (1 ∷ [])

second_gone :
    (transaction server store marked (codes "box") (codes "DELE") (codes "2")).replies
    ≡ Reply.err (codes "no such message") ∷ []
unfolding transaction text_eq select atoi
second_gone = refl

transaction-Obeys_example :
    let run = transaction server store marked (codes "box") in
    (l : List (ℕ × ℕ)) × (run (codes "LIST") [] ≡ say marked (scan l))
    × Obeys marked l
        (value (atoi (codes "1")))
        (run (codes "DELE") (codes "1") ≡ say marked no_such_message)
        (λ i m.
          run (codes "DELE") (codes "1")
          ≡ say (record marked { deleted = i ∷ 1 ∷ [] }) (Reply.ok (codes "marked for deletion")))
    × Obeys marked l
        (value (atoi (codes "1")))
        (run (codes "RETR") (codes "1") ≡ say marked no_such_message)
        (λ i m. IsSent server store marked (λ raw. raw) m (run (codes "RETR") (codes "1")))
    × Obeys marked l
        (value (atoi (codes "1")))
        (run (codes "TOP") (codes "1") ≡ say marked no_such_message)
        (λ i m.
          IsSent server store marked
            (top_lines server store marked [])
            m
            (run (codes "TOP") (codes "1")))
unfolding fields
transaction-Obeys_example =
    transaction-Obeys server store marked (codes "box") [] (codes "1") (codes "1") [] refl

stat-scan_example :
    (l : List (ℕ × ℕ)) × ((transaction server store marked (codes "box") (codes "LIST") []).replies
      ≡ scan l ∷ [])
    × ((transaction server store marked (codes "box") (codes "STAT") []).replies
        ≡ stat (length l) (total l) ∷ [])
stat-scan_example = stat-scan server store marked (codes "box") []

read_lines-dot_stuff_example :
    read_lines (dot_stuff (codes "a\r\n.b") ++ codes "+OK" ∷ [])
    ≡ some (split 10 (replace_crlf (codes "a\r\n.b")), codes "+OK" ∷ [])
read_lines-dot_stuff_example = read_lines-dot_stuff (codes "a\r\n.b") (codes "+OK" ∷ [])
