-- ===== src/Pop3/Deletion.antt =====
-- Deletion in internal/pop3/server.go: DELE marks, QUIT commits.
use mathlib.Core.List.{Perm, perm_middle}
use mathlib.Core.List.Perm
use elec_postal.Base.{
  ℕ, ◌+◌, ◌≡◌, refl, Option, none, some, List, [], ◌∷◌, ◌++◌, arith, Bool-cases, inl, inr, ◌==◌,
  if◌then◌else◌,
}
use elec_postal.Text.{Text, codes, text_eq_iff, fields, trim_space, to_upper, join}
use elec_postal.Pop3.{
  Message, Server, Backend, Session, is_deleted, live, deleted_ids, transaction, authorization,
  start_tls, authenticated, logged_in, dispatch, read_fields, step,
}

abbrev pub live_ids : List (ℕ × Message) → List Text
live_ids [] = []
live_ids ((i, m) ∷ l) = m.email_id ∷ live_ids l

abbrev pub all_ids : List Message → List Text
all_ids [] = []
all_ids (m ∷ ms) = m.email_id ∷ all_ids ms

-- The messages that LIST shows and those that QUIT moves are together the messages of the mailbox,
-- each as often as it is there.
pub live-deleted_ids-perm :
    (i : ℕ) (ms : List Message) (deleted : List ℕ)
    → Perm (live_ids (live i ms deleted) ++ deleted_ids i ms deleted) (all_ids ms)
unfolding live deleted_ids
live-deleted_ids-perm i [] deleted = Perm.refl []
live-deleted_ids-perm i (m ∷ ms) deleted = elim (Bool-cases (is_deleted i deleted)) [
  | inl e ↦ rw e (
      Perm.trans (perm_middle _ _)
        (Perm.cons m.email_id (live-deleted_ids-perm (i + 1) ms deleted)))
  | inr e ↦ rw e (Perm.cons m.email_id (live-deleted_ids-perm (i + 1) ms deleted))
]

-- what stays of a listing without one index
abbrev without : ℕ → List (ℕ × Message) → List (ℕ × Message)
without i [] = []
without i ((j, m) ∷ l) = let rest = without i l in if j == i then rest else (j, m) ∷ rest

-- Marking a message takes it out of the listing and changes nothing else: every other message keeps
-- its number.
live-mark :
    (k i : ℕ) (ms : List Message) (deleted : List ℕ)
    → live k ms (i ∷ deleted) ≡ without i (live k ms deleted)
unfolding live is_deleted
live-mark k i [] deleted = refl
live-mark k i (m ∷ ms) deleted = ground (arith, live-mark (k + 1) i ms deleted)

module _ (server : Server) (b : Backend) where
  transaction-moved :
      (s : Session) (mailbox cmd arg : Text) (moves : Text × List Text)
      → (transaction server b s mailbox cmd arg).moved ≡ some moves
      → (cmd ≡ codes "QUIT")
        × (moves ≡ (mailbox, deleted_ids 0 s.messages s.deleted))
        × ((transaction server b s mailbox cmd arg).next ≡ none)
  unfolding transaction
  transaction-moved s mailbox cmd arg moves h = ground (arith, text_eq_iff cmd (codes "QUIT"))

  authorization-moved :
      (s : Session) (cmd arg : Text) → (authorization server b s cmd arg).moved ≡ none
  unfolding authorization start_tls authenticated logged_in
  authorization-moved s cmd arg = ground arith

  dispatch-moved :
      (s : Session) (p : Option Text) (cmd arg : Text) (moves : Text × List Text)
      → (dispatch server b s p cmd arg).moved ≡ some moves
      → (mailbox : Text) × (p ≡ some mailbox)
        × (moves ≡ (mailbox, deleted_ids 0 s.messages s.deleted))
        × ((dispatch server b s p cmd arg).next ≡ none)
        × (cmd ≡ codes "QUIT")
  unfolding dispatch
  dispatch-moved s none cmd arg moves h = absurd (cc (authorization-moved s cmd arg, h))
  dispatch-moved s (some mailbox) cmd arg moves h =
      let (quit, same, ends) = transaction-moved s mailbox cmd arg moves h in
      (mailbox, refl, same, ends, quit)

  -- Only a QUIT line of a session that is logged in moves messages to Trash. It moves those marked
  -- in the mailbox of the login, and the session ends.
  pub step-moved :
      (s : Session) (line : Text) (moves : Text × List Text)
      → (step server b s line).moved ≡ some moves
      → (mailbox : Text) × (s.principal ≡ some mailbox)
        × (moves ≡ (mailbox, deleted_ids 0 s.messages s.deleted))
        × ((step server b s line).next ≡ none)
        × ((args : List Text) × (word : Text) × (fields (trim_space line) ≡ word ∷ args)
            × (to_upper word ≡ codes "QUIT"))
  unfolding step read_fields
  step-moved s line moves h = go (fields (trim_space line)) refl h
    where
      go :
          (words : List Text)
          → fields (trim_space line) ≡ words
          → (read_fields server b s words).moved ≡ some moves
          → (mailbox : Text) × (s.principal ≡ some mailbox)
            × (moves ≡ (mailbox, deleted_ids 0 s.messages s.deleted))
            × ((read_fields server b s (fields (trim_space line))).next ≡ none)
            × ((args : List Text) × (word : Text) × (fields (trim_space line) ≡ word ∷ args)
                × (to_upper word ≡ codes "QUIT"))
      go [] e h = absurd (cc h)
      go (word ∷ args) e h =
          let (mailbox, p, same, ends, quit) =
            dispatch-moved s s.principal (to_upper word) (join (codes " ") args) moves h in
          (mailbox, p, same, rw e ends, (args, word, e, quit))
