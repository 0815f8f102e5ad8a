-- ===== src/Lib.antt =====
-- ElecPostal (Go): a mail service with SMTP intake and submission, POP3, IMAP, JMAP and HTTP front
-- ends over one mail store. This library models the parts of it that decide who may do what with
-- which message, as pure functions that can be run.
--
-- How the parts interact. The SMTP server takes a message from a client: mail of an authenticated
-- mailbox is copied to local mailboxes and handed to the outbound relay; other mail is checked by
-- the sender verifier (SPF, DKIM, DMARC), whose result travels with the delivery job through the
-- queue to the mailboxes. POP3 shows INBOX to a client that logs in with an app password,
-- and IMAP its folders; what these clients move, flag and tag are rows of the mail store.
--
-- Files.
--   Base, Base/*: the libraries' names that every module shares, tests on numbers, lists.
--   Text, Text/*: Go's strings and strconv functions, on lists of ASCII codes.
--   SenderAuth/*: internal/senderauth. State has the results and the lookups; Address domainOf;
--     Spf, Spf/Terms and Spf/Ip are spf.go, with evalSPF and evalInclude as eval_spf and
--     eval_include; Dmarc is dmarc.go; Cache is lookupTXT of senderauth.go in its two locked halves;
--     Dkim, Dkim/Parse, Dkim/Keys and Dkim/Canonical are dkim.go, with one signature of the loop of
--     verifyDKIM as check_signature; Verify is Verify of senderauth.go in three stages.
--   Pop3, Pop3/Wire: internal/pop3/server.go. One round of the loop of serve is step, its two
--     switches are authorization and transaction; dotStuff and top are in Wire.
--   Smtp/Delivery: deliverJob and deleteStagedAttachments of internal/smtp/queue.go.
--   Smtp/Queue: Enqueue and handle of the NATS queue in the same file.
--   Smtp/Service, Smtp/Submission, Smtp/Session: internal/smtp/server.go: what the server works
--     with; submit and what it calls, with newDeliveryJob; the methods of a session.
--   Spam/Store: memStore of internal/spam/store.go; Spam/Training: Learn and Unlearn of scorer.go.
--   Relay/Router: internal/relay/local_mx_router.go, with the functions of direct_smtp.go it calls;
--     Relay/Dns: ValidateCustomDomainDNS and StageReport of internal/relay/dns.go.
--   MailStore/*: internal/service/protocol_store.go on the tables of internal/database/models.go:
--     Tables has folders, memberships, messages and transactions; Flags, Folders, Messages and
--     Relocation the operations (MoveProtocolMessages is move_protocol_messages, and so on); View
--     says which message is in which folder, Counters is about UIDs and mod-sequences; Keywords is
--     keywords.go on the tables of labels, Credentials the login of mail_credentials.go.
--   Imap: the commands of internal/imap/server.go on a folder, with SplitProtocolFlags.
-- The modules below each of these hold the proofs; the modules called Tests hold examples.
--
-- Conventions. A text is the list of its codes; on text outside ASCII the case and space functions
-- of Go do more than the ones here. A call that may change the surroundings (resolver, database,
-- queue, clock) is a function W -> A x W for any type W, so a theorem holds whatever it does,
-- failures included. An attachment is a handle; what its reader still holds is part of W. Machine
-- integers: strconv.Atoi has the range of a 64-bit int; sizes and POP3 numbers are natural
-- numbers; UIDs, mod-sequences and IMAP numbers wrap around at 2 ^ 32 and 2 ^ 64. The mod-sequence
-- that an UPDATE advances in the database does not wrap; that it overflows there, at 2 ^ 63, is
-- left out. Go maps are association lists or lists of keys.
--
-- Fuel. The recursion of evalSPF through evalInclude runs on the include depth that is left, which
-- the source limits to 10. All other loops are structural.
--
-- Transactions. A transaction of the mail store is a function from the tables to an error, which
-- rolls back, or a result and new tables. Queries give rows in the order of the table. The clock
-- and the identifiers of new folders and labels are arguments.
--
-- Parameters, because the code is not part of the repository: net (ParseIP and lookups),
-- net/mail, the cryptography and key formats behind DKIM, go-smtp (the order in which it calls a
-- session's methods), go-imap, bcrypt, NATS JetStream, TLS, JSON. The parsers of whole messages
-- (parseMessage, and net/mail behind TOP) are parameters as well, and so are the mail service
-- behind SMTP, POP3 and IMAP (whose answers do not change during a POP3 session), the decoder of
-- queued jobs of an older format, and the tokenizer and digest of spam training. Token counts are
-- floating-point numbers in the source; training moves them by one, so they are natural numbers
-- here, which agrees below 2 ^ 53.
--
-- Not modelled: spam scores and tokens, the relay's clients, IMAP's FETCH, JMAP and HTTP
-- handlers, the mail service beyond folders, flags, keywords and logins, the database layer,
-- MIME, clients of other services, configuration and logging.
pub mod Base
pub mod Text
pub mod SenderAuth
pub mod Pop3
pub mod Smtp
pub mod Spam
pub mod Relay
pub mod MailStore
pub mod Imap
