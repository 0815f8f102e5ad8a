-- ===== src/Pop3.antt =====
-- internal/pop3/server.go: the session of `serve`, one line at a time.
pub mod Wire
pub mod Listing
pub mod Numbers
pub mod Deletion
pub mod Access
mod Tests
use elec_postal.Base.{
  ℕ, zero, suc, ◌+◌, Bool, true, false, not, ◌&&◌, ◌||◌, Option, none, some, List, [], ◌∷◌, length,
  ◌==◌, if◌then◌else◌,
}
use elec_postal.Text.{Text, codes, text_eq, trim_space, fields, join, to_upper}
use elec_postal.Text.Number.{ℤ, pos, negsuc, value, atoi}
use Wire.{dot_stuff, top}

-- What the session reads of a `service.ProtocolMessage`.
pub record Message : Type 0 where
  pub email_id : Text
  pub uid : ℕ
  pub size : ℕ

-- The configuration: whether certificates are loaded (`s.tls != nil`), and `TLSMode` "starttls".
pub record Server : Type 0 where
  pub tls : Bool
  pub starttls : Bool

-- The service behind the session and the parser of messages; none is an error.
pub record Backend : Type 0 where
  -- the mailbox of an address and an app password
  pub authenticate : Text → Text → Option Text
  -- the messages of INBOX
  pub list_inbox : Text → Option (List Message)
  -- `OpenProtocolMessage` and `RenderBytes`
  pub source : Text → Option Text
  -- `mail.ReadMessage`, its header lines, and `topText` of its body
  pub read_message : Text → Option (List (Text × Text) × Text)
  -- whether the TLS handshake of STLS succeeds
  pub handshake : Bool

-- The variables of `serve`; the map `deleted` is the list of its keys.
pub record Session : Type 0 where
  pub secure : Bool
  pub user : Text
  pub principal : Option Text
  pub messages : List Message
  pub deleted : List ℕ

abbrev pub opened : Bool → Session
opened secure = record { secure = secure; user = []; principal = none; messages = []; deleted = [] }

-- What is written: a status line, or a status line and the lines behind it.
pub data Reply : Type 0 where
  ok err : Text → Reply
  stat : ℕ → ℕ → Reply
  capabilities : Reply
  scan uids : List (ℕ × ℕ) → Reply
  content : ℕ → List Text → Reply

-- The replies to a line, the messages moved to Trash (the mailbox and the ids), and the session,
-- none where `serve` returns.
pub record Outcome : Type 0 where
  pub replies : List Reply
  pub moved : Option (Text × List Text)
  pub next : Option Session

abbrev pub say : Session → Reply → Outcome
say s r = record { replies = r ∷ []; moved = none; next = some s }

abbrev pub bye : Option (Text × List Text) → Outcome
bye moves = record { replies = ok (codes "bye") ∷ []; moved = moves; next = none }

pub is_deleted : ℕ → List ℕ → Bool
is_deleted i [] = false
is_deleted i (j ∷ js) = i == j || is_deleted i js

-- The messages that are not deleted, with their index; `i` is the index of the first.
pub live : ℕ → List Message → List ℕ → List (ℕ × Message)
unfolding is_deleted
live i [] deleted = []
live i (m ∷ ms) deleted =
    let rest = live (i + 1) ms deleted in if is_deleted i deleted then rest else (i, m) ∷ rest

-- the loop of STAT
pub stat_loop : ℕ → List Message → List ℕ → ℕ → ℕ → ℕ × ℕ
unfolding is_deleted
stat_loop i [] deleted count size = (count, size)
stat_loop i (m ∷ ms) deleted count size =
    let gone = is_deleted i deleted in
    stat_loop (i + 1) ms deleted (if gone then count else count + 1)
      (if gone then size else size + m.size)

-- the loops of LIST and UIDL, with what they print behind the number
pub list_loop : (Message → ℕ) → List (ℕ × Message) → List (ℕ × ℕ)
list_loop f [] = []
list_loop f ((i, m) ∷ ms) = (i + 1, f m) ∷ list_loop f ms

-- the loop of QUIT
pub deleted_ids : ℕ → List Message → List ℕ → List Text
unfolding is_deleted
deleted_ids i [] deleted = []
deleted_ids i (m ∷ ms) deleted =
    let rest = deleted_ids (i + 1) ms deleted in
    if is_deleted i deleted then m.email_id ∷ rest else rest

abbrev pub message_at : ℕ → List Message → Option Message
message_at i [] = none
message_at zero (m ∷ ms) = some m
message_at (suc i) (m ∷ ms) = message_at i ms

abbrev unless_deleted : Bool → ℕ → Option Message → Option (ℕ × Message)
unless_deleted true i m = none
unless_deleted false i none = none
unless_deleted false i (some m) = some (i, m)

-- The index and the message of a number that passes `n < 1 || n > len(messages) || deleted[n-1]`.
pub select : Session → ℤ → Option (ℕ × Message)
unfolding is_deleted
select s (pos zero) = none
select s (pos (suc i)) = unless_deleted (is_deleted i s.deleted) i (message_at i s.messages)
select s (negsuc n) = none

abbrev pub no_such_message : Reply
no_such_message = err (codes "no such message")

abbrev no_number : Reply
no_number = err (codes "message number required")

abbrev pub mark : Session → Option (ℕ × Message) → Outcome
mark s none = say s no_such_message
mark s (some (i, m)) = say (record s { deleted = i ∷ s.deleted }) (ok (codes "marked for deletion"))

abbrev nil_ids : List Text → Bool
nil_ids [] = true
nil_ids (x ∷ xs) = false

module _ (server : Server) (b : Backend) where
  shown : Bool → List Text → Text → Reply
  shown is_top (number ∷ lines ∷ rest) raw =
      let cut_raw = if is_top then top b.read_message raw lines else raw in
      content (length cut_raw) (dot_stuff cut_raw)
  shown is_top parts raw = content (length raw) (dot_stuff raw)

  retrieved : Bool → List Text → Option Text → Reply
  retrieved is_top parts none = err (codes "message source unavailable")
  retrieved is_top parts (some raw) = shown is_top parts raw

  fetch : Bool → List Text → Option (ℕ × Message) → Reply
  fetch is_top parts none = no_such_message
  fetch is_top parts (some (i, m)) = retrieved is_top parts (b.source m.email_id)

  -- RETR and TOP
  pub retrieve : Bool → Session → List Text → Reply
  unfolding fetch retrieved shown
  retrieve is_top s [] = no_number
  retrieve is_top s (number ∷ rest) = fetch is_top (number ∷ rest) (select s (value (atoi number)))

  -- the switch behind a login, in the mailbox of the principal
  unfoldable pub transaction : Session → Text → Text → Text → Outcome
  transaction s mailbox cmd arg =
      let (count, total) = stat_loop 0 s.messages s.deleted 0 0 in
      let visible = live 0 s.messages s.deleted in
      let ids = deleted_ids 0 s.messages s.deleted in
      if text_eq cmd (codes "STAT")
      then say s (stat count total)
      else if text_eq cmd (codes "LIST")
      then say s (scan (list_loop (λ m. m.size) visible))
      else if text_eq cmd (codes "UIDL")
      then say s (uids (list_loop (λ m. m.uid) visible))
      else if text_eq cmd (codes "RETR")
      then say s (retrieve false s (fields arg))
      else if text_eq cmd (codes "TOP")
      then say s (retrieve true s (fields arg))
      else if text_eq cmd (codes "DELE")
      then mark s (select s (value (atoi arg)))
      else if text_eq cmd (codes "RSET")
      then say (record s { deleted = [] }) (ok (codes "reset"))
      else if text_eq cmd (codes "NOOP")
      then say s (ok [])
      else if text_eq cmd (codes "QUIT")
      then bye (if nil_ids ids then none else some (mailbox, ids))
      else say s (err (codes "unsupported command"))

  -- PASS once the backend has answered
  logged_in : Session → Text → Option (List Message) → Outcome
  logged_in s mailbox none = say (record s { messages = [] }) (err (codes "mailbox unavailable"))
  logged_in s mailbox (some ms) =
      say (record s { principal = some mailbox; messages = ms })
        (ok (codes "mailbox locked and ready"))

  authenticated : Session → Option Text → Outcome
  authenticated s none = say s (err (codes "authentication failed"))
  authenticated s (some mailbox) = logged_in s mailbox (b.list_inbox mailbox)

  start_tls : Session → Outcome
  start_tls s =
      if not server.tls || not server.starttls || s.secure
      then say s (err (codes "STLS unavailable"))
      else if b.handshake
      then say (record s { secure = true }) (ok (codes "Begin TLS negotiation"))
      else record { replies = ok (codes "Begin TLS negotiation") ∷ []; moved = none; next = none }

  -- the switch before a login
  unfoldable pub authorization : Session → Text → Text → Outcome
  unfolding start_tls authenticated logged_in
  authorization s cmd arg =
      if text_eq cmd (codes "STLS")
      then start_tls s
      else if text_eq cmd (codes "CAPA")
      then say s capabilities
      else if text_eq cmd (codes "USER")
      then say (record s { user = arg }) (ok (codes "user accepted"))
      else if text_eq cmd (codes "PASS")
      then (if server.tls && not s.secure
          then say s (err (codes "STLS required"))
          else authenticated s (b.authenticate s.user arg))
      else if text_eq cmd (codes "QUIT")
      then bye none
      else say s (err (codes "authenticate first"))

  dispatch : Session → Option Text → Text → Text → Outcome
  dispatch s none cmd arg = authorization s cmd arg
  dispatch s (some mailbox) cmd arg = transaction s mailbox cmd arg

  read_fields : Session → List Text → Outcome
  read_fields s [] = say s (err (codes "empty command"))
  read_fields s (cmd ∷ args) = dispatch s s.principal (to_upper cmd) (join (codes " ") args)

  -- one round of the loop, on the line that was read
  unfoldable pub step : Session → Text → Outcome
  unfolding read_fields dispatch
  step s line = read_fields s (fields (trim_space line))
