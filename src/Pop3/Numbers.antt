-- ===== src/Pop3/Numbers.antt =====
-- The message numbers of RETR, TOP and DELE in internal/pop3/server.go are those of LIST.
use elec_postal.Base.{
  ℕ, zero, suc, ◌≡◌, ◌⊎◌, refl, sym, ap, ◌∙◌, true, false, Bool, Option, none, some, List, [], ◌∷◌,
  arith, Bool-cases, Option-cases, inl, inr, length, Any,
}
use elec_postal.Text.{Text, codes, text_eq, fields}
use elec_postal.Text.Number.{ℤ, pos, negsuc, value, atoi}
use elec_postal.Pop3.Wire.{dot_stuff, top}
use elec_postal.Pop3.Listing.{In, select_iff}
use elec_postal.Pop3.{
  Message, Server, Backend, Session, Outcome, say, ok, err, scan, content, is_deleted, live,
  list_loop, message_at, select, mark, no_such_message, shown, retrieved, fetch, retrieve,
  transaction,
}

select-number :
    (s : Session) (z : ℤ) (i : ℕ) (m : Message)
    → select s z ≡ some (i, m)
    → (z ≡ pos (suc i)) × (message_at i s.messages ≡ some m)
unfolding select
select-number s (pos zero) i m h = absurd (cc h)
select-number s (pos (suc j)) i m h = elim (Bool-cases (is_deleted j s.deleted)) [
  | inl e ↦ absurd (ground (arith, e, h))
  | inr e ↦ elim (Option-cases (message_at j s.messages)) [
    | inl q ↦ absurd (ground (arith, rw (e, q) at h))
    | inr (x, q) ↦
        let same : ◌≡◌ {A = Option (ℕ × Message)} (some (j, x)) (some (i, m)) = rw (e, q) at h in
        let here : j ≡ i = cc same in (rw here refl, rw (sym here) (q ∙ cc same))
  ]
]
select-number s (negsuc n) i m h = absurd (cc h)

-- The listing shows a message of this size under this number.
abbrev pub Shows : ℤ → ℕ → List (ℕ × ℕ) → Type 0
Shows z size l = Any (λ line. (z ≡ pos line.0) × (size ≡ line.1)) l

In-Shows :
    (i : ℕ) (m : Message) (ms : List (ℕ × Message))
    → In i m ms
    → Shows (pos (suc i)) m.size (list_loop (λ x. x.size) ms)
unfolding list_loop
In-Shows i m [] h = elim h [ ]
In-Shows i m ((j, x) ∷ ms) h = elim h [
  | inl (p, q) ↦ inl (ap (λ n. pos (suc n)) p ∙ ap pos (omega arith), ap (λ x. x.size) q)
  | inr later ↦ inr (In-Shows i m ms later)
]

Shows-In :
    (z : ℤ) (size : ℕ) (ms : List (ℕ × Message))
    → Shows z size (list_loop (λ x. x.size) ms)
    → (i : ℕ) × (m : Message) × (z ≡ pos (suc i)) × In i m ms
unfolding list_loop
Shows-In z size [] h = elim h [ ]
Shows-In z size ((j, x) ∷ ms) h = elim h [
  | inl (p, q) ↦ (j, x, p ∙ ap pos (omega arith), inl (refl, refl))
  | inr later ↦ let (i, m, p, here) = Shows-In z size ms later in (i, m, p, inr here)
]

-- what LIST prints
abbrev pub listing : Session → List (ℕ × ℕ)
listing s = list_loop (λ m. m.size) (live 0 s.messages s.deleted)

-- A command with this number is refused and the listing does not show the number, or the listing
-- shows the message of the mailbox to which it is done.
abbrev pub Obeys : Session → List (ℕ × ℕ) → ℤ → Type 0 → (ℕ → Message → Type 0) → Type 0
Obeys s l z Refused Done =
    (Refused × ¬ ((size : ℕ) × Shows z size l))
    ⊎ ((i : ℕ) × (m : Message) × (z ≡ pos (suc i))
        × Shows z m.size l
        × (message_at i s.messages ≡ some m)
        × Done i m)

select-Obeys :
    (s : Session) (z : ℤ)
    → Obeys s (listing s) z (select s z ≡ none) (λ i m. select s z ≡ some (i, m))
select-Obeys s z = elim (Option-cases (select s z)) [
  | inl e ↦ inl (
    e,
    λ (size, h).
        let (i, m, p, here) = Shows-In z size (live 0 s.messages s.deleted) h in
        absurd (cc (e, ap (select s) p, (select_iff s i m).1 here)),
  )
  | inr ((i, m), e) ↦
      let (p, q) = select-number s z i m e in
      let here = (select_iff s i m).0 (ap (select s) (sym p) ∙ e) in
      inr (i, m, p, rw p (In-Shows i m (live 0 s.messages s.deleted) here), q, e)
]

Obeys-map :
    (s : Session) (l : List (ℕ × ℕ)) (z : ℤ) (R R' : Type 0) (D D' : ℕ → Message → Type 0)
    → Obeys s l z R D
    → (R → R')
    → ((i : ℕ) (m : Message) → D i m → D' i m)
    → Obeys s l z R' D'
Obeys-map s l z R R' D D' (inl (r, absent)) f g = inl (f r, absent)
Obeys-map s l z R R' D D' (inr (i, m, p, here, q, d)) f g = inr (i, m, p, here, q, g i m d)

module _ (server : Server) (b : Backend) (s : Session) where
  -- The source of the message was sent, or what `cut_off` leaves of it, or there was none.
  abbrev pub IsSent : (Text → Text) → Message → Outcome → Type 0
  IsSent cut_off m out =
      ((b.source m.email_id ≡ none) × (out ≡ say s (err (codes "message source unavailable"))))
      ⊎ ((raw : Text) × (b.source m.email_id ≡ some raw)
          × (out ≡ say s (content (length (cut_off raw)) (dot_stuff (cut_off raw)))))

  -- what TOP leaves with these arguments behind the number
  abbrev pub top_lines : List Text → Text → Text
  top_lines [] raw = raw
  top_lines (lines ∷ rest) raw = top b.read_message raw lines

  shown-top :
      (word : Text) (rest : List Text) (raw : Text)
      → let cut_off = top_lines rest raw in
        shown server b true (word ∷ rest) raw ≡ content (length cut_off) (dot_stuff cut_off)
  unfolding shown
  shown-top word [] raw = refl
  shown-top word (lines ∷ rest) raw = refl

  shown-whole :
      (word : Text) (rest : List Text) (raw : Text)
      → shown server b false (word ∷ rest) raw ≡ content (length raw) (dot_stuff raw)
  unfolding shown
  shown-whole word [] raw = refl
  shown-whole word (lines ∷ rest) raw = refl

  retrieve-Obeys :
      (is_top : Bool) (cut_off : Text → Text) (word : Text) (rest : List Text)
      → ((raw : Text)
          → shown server b is_top (word ∷ rest) raw
            ≡ content (length (cut_off raw)) (dot_stuff (cut_off raw)))
      → let out = say s (retrieve server b is_top s (word ∷ rest)) in
        Obeys s
          (listing s)
          (value (atoi word))
          (out ≡ say s no_such_message)
          (λ i m. IsSent cut_off m out)
  unfolding retrieve fetch retrieved
  retrieve-Obeys is_top cut_off word rest h =
      Obeys-map s (listing s) (value (atoi word)) _ _ _ _ (select-Obeys s (value (atoi word)))
        (λ e. rw e refl)
        (λ i m e. elim (Option-cases (b.source m.email_id)) [
          | inl q ↦ inl (q, rw (e, q) refl)
          | inr (raw, q) ↦ inr (raw, q, rw (e, q) (ap (say s) (h raw)))
        ])

  mark-Obeys :
      (z : ℤ)
      → Obeys s (listing s) z (mark s (select s z) ≡ say s no_such_message) (λ i m.
        mark s (select s z)
        ≡ say (record s { deleted = i ∷ s.deleted }) (ok (codes "marked for deletion")))
  mark-Obeys z =
      Obeys-map s (listing s) z _ _ _ _ (select-Obeys s z) (λ e. rw e refl) (λ i m e. rw e refl)

  -- The numbers that LIST prints are the ones that the other commands obey. RETR, TOP and DELE refuse
  -- a number and change nothing if LIST does not show it. Otherwise LIST shows it with the size of
  -- the message at that place of the mailbox; DELE marks that message, RETR sends its source, and
  -- TOP what it cuts off its source, if the source can be had.
  pub transaction-Obeys :
      (mailbox other arg word : Text) (rest : List Text)
      → fields arg ≡ word ∷ rest
      → let run = transaction server b s mailbox in
        let n = value (atoi word) in
        (l : List (ℕ × ℕ)) × (run (codes "LIST") other ≡ say s (scan l))
        × Obeys s l (value (atoi arg)) (run (codes "DELE") arg ≡ say s no_such_message) (λ i m.
          run (codes "DELE") arg
          ≡ say (record s { deleted = i ∷ s.deleted }) (ok (codes "marked for deletion")))
        × Obeys s l n
            (run (codes "RETR") arg ≡ say s no_such_message)
            (λ i m. IsSent (λ raw. raw) m (run (codes "RETR") arg))
        × Obeys s l n
            (run (codes "TOP") arg ≡ say s no_such_message)
            (λ i m. IsSent (top_lines rest) m (run (codes "TOP") arg))
  unfolding transaction text_eq
  transaction-Obeys mailbox other arg word rest e = (
    listing s,
    refl,
    mark-Obeys (value (atoi arg)),
    rw e (retrieve-Obeys false (λ raw. raw) word rest (shown-whole word rest)),
    rw e (retrieve-Obeys true (top_lines rest) word rest (shown-top word rest)),
  )
