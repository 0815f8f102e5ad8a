-- ===== src/Pop3/Listing.antt =====
-- STAT and LIST of internal/pop3/server.go agree, and both with the numbers that are accepted.
use mathlib.Core.Path.{subst}
use native.Mathlib.Nat.{zero-add}
use elec_postal.Base.{
  ℕ, zero, suc, ◌+◌, ◌≡◌, ◌⊎◌, ◌↔◌, refl, sym, false, some, List, [], ◌∷◌, arith, Bool-cases, inl,
  inr, length,
}
use elec_postal.Text.{Text, codes, text_eq}
use elec_postal.Text.Number.{pos}
use elec_postal.Pop3.{
  Message, Server, Backend, Session, scan, stat, is_deleted, live, stat_loop, list_loop, message_at,
  select, transaction,
}

-- the sum of the second numbers of a listing
abbrev pub total : List (ℕ × ℕ) → ℕ
total [] = 0
total ((n, size) ∷ l) = size + total l

stat_loop-live :
    (i : ℕ) (ms : List Message) (deleted : List ℕ) (count size : ℕ)
    → let l = list_loop (λ m. m.size) (live i ms deleted) in
      stat_loop i ms deleted count size ≡ (count + length l, size + total l)
unfolding stat_loop live list_loop
stat_loop-live i [] deleted count size = ground arith
stat_loop-live i (m ∷ ms) deleted count size = elim (Bool-cases (is_deleted i deleted)) [
  | inl e ↦ rw e (stat_loop-live (i + 1) ms deleted count size)
  | inr e ↦ rw e (ground (arith, stat_loop-live (i + 1) ms deleted (count + 1) (size + m.size)))
]

module _ (server : Server) (b : Backend) (s : Session) (mailbox arg : Text) where
  -- LIST prints a listing, and STAT prints how many messages it has and the sum of their sizes.
  pub stat-scan :
      (l : List (ℕ × ℕ)) × ((transaction server b s mailbox (codes "LIST") arg).replies
        ≡ scan l ∷ [])
      × ((transaction server b s mailbox (codes "STAT") arg).replies
          ≡ stat (length l) (total l) ∷ [])
  unfolding transaction text_eq
  stat-scan = (
    list_loop (λ m. m.size) (live 0 s.messages s.deleted),
    refl,
    rw (stat_loop-live 0 s.messages s.deleted 0 0) (ground arith),
  )

-- the entry is one of the list
abbrev pub In : ℕ → Message → List (ℕ × Message) → Type 0
In i m [] = ⊥
In i m ((j, x) ∷ l) = ((i ≡ j) × (m ≡ x)) ⊎ In i m l

In-live :
    (k i : ℕ) (m : Message) (ms : List Message) (deleted : List ℕ)
    → message_at i ms ≡ some m
    → is_deleted (k + i) deleted ≡ false
    → In (k + i) m (live k ms deleted)
unfolding live
In-live k i m [] deleted h d = absurd (cc h)
In-live k zero m (x ∷ ms) deleted h d =
    let e : k + 0 ≡ k = omega arith in rw (rw e at d) (inl (e, cc h))
In-live k (suc i) m (x ∷ ms) deleted h d =
    let e : k + suc i ≡ k + 1 + i = omega arith in
    let rest = In-live (k + 1) i m ms deleted h (rw e at d) in
    let moved = subst (λ n. In n m (live (k + 1) ms deleted)) (sym e) rest in
    elim (Bool-cases (is_deleted k deleted)) [
      | inl gone ↦ rw gone moved
      | inr here ↦ rw here (inr moved)
    ]

-- an index found behind the first message
live-In_suc :
    (k j : ℕ) (m x : Message) (ms : List Message) (deleted : List ℕ)
    → ((i : ℕ) × (j ≡ k + 1 + i) × (message_at i ms ≡ some m) × (is_deleted j deleted ≡ false))
    → (i : ℕ) × (j ≡ k + i) × (message_at i (x ∷ ms) ≡ some m) × (is_deleted j deleted ≡ false)
live-In_suc k j m x ms deleted (i, p, q, r) = (suc i, omega arith, q, r)

live-In :
    (k j : ℕ) (m : Message) (ms : List Message) (deleted : List ℕ)
    → In j m (live k ms deleted)
    → (i : ℕ) × (j ≡ k + i) × (message_at i ms ≡ some m) × (is_deleted j deleted ≡ false)
unfolding live
live-In k j m [] deleted h = elim h [ ]
live-In k j m (x ∷ ms) deleted h = elim (Bool-cases (is_deleted k deleted)) [
  | inl gone ↦ live-In_suc k j m x ms deleted (live-In (k + 1) j m ms deleted (rw gone at h))
  | inr here ↦ elim (rw here at h) [
    | inl (p, q) ↦ (0, ground (arith, p), cc q, rw p here)
    | inr rest ↦ live-In_suc k j m x ms deleted (live-In (k + 1) j m ms deleted rest)
  ]
]

-- The numbers that are accepted are those of the messages that are not marked.
pub select_iff :
    (s : Session) (i : ℕ) (m : Message)
    → (select s (pos (suc i)) ≡ some (i, m)) ↔ In i m (live 0 s.messages s.deleted)
unfolding select
select_iff s i m = (
  (λ h.
      subst (λ n. In n m (live 0 s.messages s.deleted)) (zero-add i)
        (In-live 0 i m s.messages s.deleted (ground (arith, h)) (rw zero-add (ground (arith, h))))),
  (λ h.
      let (j, p, q, r) = live-In 0 i m s.messages s.deleted h in
      let e : i ≡ j = omega arith in rw r (rw e (rw q))),
)
