-- ===== src/Pop3/Access.antt =====
-- What holds of every reachable session of internal/pop3/server.go.
use mathlib.Core.Path.{subst}
use elec_postal.Base.{
  ℕ, zero, suc, ◌<◌, ◌≡◌, ◌≢◌, ◌⊎◌, refl, sym, ◌∙◌, Bool, true, Option, none, some, List, [], ◌∷◌,
  arith, inl, inr, length, All,
}
use elec_postal.Text.{Text, codes, fields, trim_space, to_upper, join}
use elec_postal.Text.Number.{ℤ, pos, negsuc, value, atoi}
use elec_postal.Pop3.{
  Message, Server, Backend, Session, opened, message_at, select, mark, transaction, authorization,
  start_tls, authenticated, logged_in, dispatch, read_fields, step,
}

-- The sessions that lines can lead to; `secure` is true where the listener is implicit TLS.
pub data Reach (server : Server) (b : Backend) (secure : Bool) : Session → Type 0 where
  start : Reach server b secure (opened secure)
  read :
      {s t : Session} (line : Text)
      → Reach server b secure s
      → (step server b s line).next ≡ some t
      → Reach server b secure t

pub record IsSafe (server : Server) (s : Session) : Type 0 where
  -- where certificates are loaded, a login was made over TLS
  pub encrypted : s.principal ≢ none → server.tls ≡ true → s.secure ≡ true
  -- before a login nothing is marked
  pub untouched : s.principal ≡ none → s.deleted ≡ []
  -- what is marked is a message
  pub inside : All (λ i. i < length s.messages) s.deleted

message_at-lt : (i : ℕ) (ms : List Message) (m : Message) → message_at i ms ≡ some m → i < length ms
message_at-lt i [] m h = absurd (cc h)
message_at-lt zero (x ∷ ms) m h = omega arith
message_at-lt (suc i) (x ∷ ms) m h = omega (arith, message_at-lt i ms m h)

select-lt :
    (s : Session) (n : ℤ) (i : ℕ) (m : Message) → select s n ≡ some (i, m) → i < length s.messages
unfolding select
select-lt s (pos zero) i m h = absurd (cc h)
select-lt s (pos (suc k)) i m h = ground (arith, h, message_at-lt k s.messages m)
select-lt s (negsuc n) i m h = absurd (cc h)

-- A line behind the login leaves the session, clears the marks, or marks a message.
data Change (s t : Session) : Type 0 where
  stays : t ≡ s → Change s t
  clears : t ≡ record s { deleted = [] } → Change s t
  marks : (i : ℕ) → i < length s.messages → t ≡ record s { deleted = i ∷ s.deleted } → Change s t

mark-Change :
    (s t : Session) (n : ℤ) (o : Option (ℕ × Message))
    → select s n ≡ o
    → (mark s o).next ≡ some t
    → Change s t
mark-Change s t n none e h = stays (cc h)
mark-Change s t n (some (i, m)) e h = marks i (select-lt s n i m e) (cc h)

module _ (server : Server) (b : Backend) where
  transaction-next :
      (s t : Session) (mailbox cmd arg : Text)
      → (transaction server b s mailbox cmd arg).next ≡ some t
      → (t ≡ s)
        ⊎ ((t ≡ record s { deleted = [] }) ⊎ ((mark s (select s (value (atoi arg)))).next ≡ some t))
  unfolding transaction
  transaction-next s t mailbox cmd arg h = ground arith

  transaction-Change :
      (s t : Session) (mailbox cmd arg : Text)
      → (transaction server b s mailbox cmd arg).next ≡ some t
      → Change s t
  transaction-Change s t mailbox cmd arg h = elim (transaction-next s t mailbox cmd arg h) [
    | inl e ↦ stays e
    | inr (inl e) ↦ clears e
    | inr (inr e) ↦ mark-Change s t (value (atoi arg)) (select s (value (atoi arg))) refl e
  ]

  Change-IsSafe :
      {s t : Session} (mailbox : Text)
      → s.principal ≡ some mailbox
      → IsSafe server s
      → Change s t
      → IsSafe server t
  Change-IsSafe mailbox p safe (stays e) = subst (IsSafe server) (sym e) safe
  Change-IsSafe mailbox p safe (clears e) =
      subst (IsSafe server) (sym e)
        (record { encrypted = safe.encrypted; untouched = λ q. refl; inside = tt })
  Change-IsSafe mailbox p safe (marks i lt e) = subst (IsSafe server) (sym e) (record {
    encrypted = safe.encrypted;
    untouched = λ q. absurd (cc (p, q));
    inside = (lt, safe.inside);
  })

  -- What a line before the login can lead to: the marks are as they were, and TLS has not ended.
  authorization-next :
      (s t : Session) (cmd arg : Text)
      → s.principal ≡ none
      → (authorization server b s cmd arg).next ≡ some t
      → (t.deleted ≡ s.deleted)
        × (s.secure ≡ true → t.secure ≡ true)
        × (t.principal ≢ none → server.tls ≡ true → s.secure ≡ true)
  unfolding authorization start_tls authenticated logged_in
  authorization-next s t cmd arg p h =
      (ground arith, (λ e. ground (arith, e)), (λ n c. ground (arith, n, c)))

  dispatch-IsSafe :
      {s t : Session} (p : Option Text) (cmd arg : Text)
      → s.principal ≡ p
      → IsSafe server s
      → (dispatch server b s p cmd arg).next ≡ some t
      → IsSafe server t
  unfolding dispatch
  dispatch-IsSafe {s} {t} none cmd arg p safe h =
      let (kept, tls, login) = authorization-next s t cmd arg p h in
      let clean : t.deleted ≡ [] = kept ∙ safe.untouched p in
      record {
        encrypted = λ n c. tls (login n c);
        untouched = λ q. clean;
        inside = subst (All (λ i. i < length t.messages)) (sym clean) tt;
      }
  dispatch-IsSafe {s} {t} (some mailbox) cmd arg p safe h =
      Change-IsSafe mailbox p safe (transaction-Change s t mailbox cmd arg h)

  step-IsSafe :
      {s t : Session} (line : Text)
      → IsSafe server s
      → (step server b s line).next ≡ some t
      → IsSafe server t
  unfolding step read_fields
  step-IsSafe {s} {t} line safe h = go (fields (trim_space line)) h
    where
      go : (words : List Text) → (read_fields server b s words).next ≡ some t → IsSafe server t
      go [] e = subst (IsSafe server) (cc e) safe
      go (word ∷ args) e =
          dispatch-IsSafe s.principal (to_upper word) (join (codes " ") args) refl safe e

  -- In every session that lines can lead to, a login was made over TLS if the server has
  -- certificates, nothing is marked before a login, and only messages of the mailbox are marked.
  pub Reach-IsSafe : {secure : Bool} {s : Session} → Reach server b secure s → IsSafe server s
  Reach-IsSafe start = record {
    encrypted = λ n. absurd (n refl);
    untouched = λ p. refl;
    inside = tt;
  }
  Reach-IsSafe (read line before h) = step-IsSafe line (Reach-IsSafe before) h
