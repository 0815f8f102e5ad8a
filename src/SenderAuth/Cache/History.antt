-- ===== src/SenderAuth/Cache/History.antt =====
-- Where the answers in the cache of `verifier` come from, whatever threads fill it.
use mathlib.Core.Path.{subst}
use elec_postal.Base.{
  ℕ, ◌+◌, ◌<◌, ◌≡◌, ◌⊎◌, refl, sym, ap, ◌∙◌, none, some, List, [], ◌∷◌, ◌++◌, arith, Bool-cases,
  Option-cases, inl, inr, length, leb, if◌then◌else◌,
}
use elec_postal.Text.{Text, text_eq, text_eq_iff, member}
use elec_postal.SenderAuth.State.{Answer, records, not_found, failed}
use elec_postal.SenderAuth.Cache.Tracking.{IsTracked, empty-IsTracked, remember-IsTracked}
use elec_postal.SenderAuth.Cache.{
  Entry, Cache, empty, keys, lookup, put, delete, evict_oldest, make_room, store, remember, ttl,
  cached, cache_max,
}

lookup-put :
    (m name : Text) (e : Entry) (l : List (Text × Entry))
    → lookup m (put name e l) ≡ (if text_eq name m then some e else lookup m l)
unfolding lookup put
lookup-put m name e [] = refl
lookup-put m name e ((k, x) ∷ l) =
    ground (arith, lookup-put m name e l, text_eq_iff k name, text_eq_iff name m, text_eq_iff k m)

lookup-delete :
    (m name : Text) (l : List (Text × Entry))
    → lookup m (delete name l) ≡ (if text_eq name m then none else lookup m l)
unfolding lookup delete
lookup-delete m name [] = ground arith
lookup-delete m name ((k, x) ∷ l) =
    ground (arith, lookup-delete m name l, text_eq_iff k name, text_eq_iff name m, text_eq_iff k m)

-- One answer of the resolver to one thread.
pub record Reply : Type 0 where
  pub asked : ℕ
  pub name : Text
  pub answer : Answer

abbrev pub In : Reply → List Reply → Type 0
In r [] = ⊥
In r (x ∷ xs) = (r ≡ x) ⊎ In r xs

-- The caches that arise when threads hand in these replies, the last one first, in any order that
-- the lock gives them; replies may come late, with a time read before other threads' replies.
pub data Reach : List Reply → Cache → Type 0 where
  start : Reach [] empty
  reply :
      {h : List Reply} {c c' : Cache} (r : Reply)
      → Reach h c
      → remember r.asked r.name r.answer c ≡ some c'
      → Reach (r ∷ h) c'

-- Every reachable cache is tracked.
pub Reach-IsTracked : {h : List Reply} {c : Cache} → Reach h c → IsTracked c
Reach-IsTracked start = empty-IsTracked
Reach-IsTracked (reply {c = c} r before e) =
    let (c', made, t) = remember-IsTracked r.asked r.name r.answer c (Reach-IsTracked before) in
    subst IsTracked (cc (made, e)) t

-- The entry is the answer to this name in some reply, kept for its time.
abbrev Source : List Reply → Text → Entry → Type 0
Source h name e =
    (r : Reply) × In r h
    × (r.name ≡ name)
    × (r.answer ≡ e.answer)
    × ((t : ℕ) × (ttl e.answer ≡ some t) × (e.expires ≡ r.asked + t))

abbrev Sourced : List Reply → List (Text × Entry) → Type 0
Sourced h l = (m : Text) (e : Entry) → lookup m l ≡ some e → Source h m e

weaken : (x : Reply) (h : List Reply) (l : List (Text × Entry)) → Sourced h l → Sourced (x ∷ h) l
weaken x h l s m e p = let (r, i, n, a, t) = s m e p in (r, inr i, n, a, t)

Sourced-delete :
    (h : List Reply) (name : Text) (l : List (Text × Entry))
    → Sourced h l
    → Sourced h (delete name l)
Sourced-delete h name l s m e p = s m e (ground (arith, lookup-delete m name l))

Sourced-put :
    (h : List Reply) (name : Text) (x : Entry) (l : List (Text × Entry))
    → Sourced h l
    → Source h name x
    → Sourced h (put name x l)
Sourced-put h name x l s new m e p = elim (Bool-cases (text_eq name m)) [
  | inl same ↦
      subst (λ n. Source h n e) ((text_eq_iff name m).0 same)
        (subst (Source h name) (ground (arith, lookup-put m name x l)) new)
  | inr other ↦ s m e (ground (arith, lookup-put m name x l))
]

carry : (h : List Reply) (a b : Cache) → some a ≡ some b → Sourced h a.entries → Sourced h b.entries
carry h a b e s = let same : a ≡ b = cc e in subst (λ (k : Cache). Sourced h k.entries) same s

Sourced-evict :
    (h : List Reply) (c c' : Cache) (q : List Text)
    → Sourced h c.entries
    → evict_oldest q c ≡ some c'
    → Sourced h c'.entries
unfolding evict_oldest
Sourced-evict h c c' [] s e = absurd (cc e)
Sourced-evict h c c' (o ∷ q) s e =
    carry h (record { entries = delete o c.entries; order = q }) c' e
      (Sourced-delete h o c.entries s)

Sourced-room :
    (h : List Reply) (c c' : Cache)
    → Sourced h c.entries
    → make_room c ≡ some c'
    → Sourced h c'.entries
unfolding make_room
Sourced-room h c c' s e = elim (Bool-cases (leb cache_max (length c.entries))) [
  | inl full ↦ Sourced-evict h c c' c.order s (rw full at e)
  | inr free ↦ carry h c c' (rw free at e) s
]

Sourced-store :
    (h : List Reply) (name : Text) (x : Entry) (c c' : Cache)
    → Sourced h c.entries
    → Source h name x
    → store name x c ≡ some c'
    → Sourced h c'.entries
unfolding store
Sourced-store h name x c c' s new e = elim (Bool-cases (member name (keys c.entries))) [
  | inl old ↦
      carry h (record c { entries = put name x c.entries }) c' (rw old at e)
        (Sourced-put h name x c.entries s new)
  | inr fresh_name ↦ elim (Option-cases (make_room c)) [
    | inl full ↦ absurd (cc (rw (fresh_name, full) at e))
    | inr (room, made) ↦
        carry h (record { entries = put name x room.entries; order = room.order ++ name ∷ [] }) c'
          (rw (fresh_name, made) at e)
          (Sourced-put h name x room.entries (Sourced-room h c room s made) new)
  ]
]

Sourced-remember :
    (h : List Reply) (r : Reply) (answer : Answer) (c c' : Cache)
    → r.answer ≡ answer
    → Sourced h c.entries
    → remember r.asked r.name answer c ≡ some c'
    → Sourced (r ∷ h) c'.entries
unfolding remember
Sourced-remember h r (records rs) c c' a s e =
    Sourced-store (r ∷ h) r.name _ c c' (weaken r h c.entries s)
      (r, inl refl, refl, a, (300, refl, refl)) e
Sourced-remember h r not_found c c' a s e =
    Sourced-store (r ∷ h) r.name _ c c' (weaken r h c.entries s)
      (r, inl refl, refl, a, (60, refl, refl)) e
Sourced-remember h r failed c c' a s e = carry (r ∷ h) c c' e (weaken r h c.entries s)

Reach-Sourced : {h : List Reply} {c : Cache} → Reach h c → Sourced h c.entries
unfolding lookup
Reach-Sourced start = λ m e p. cc p
Reach-Sourced (reply {h = h} {c = c} {c' = c'} r before e) =
    Sourced-remember h r r.answer c c' refl (Reach-Sourced before) e

-- A hit is never stale: whatever replies the threads have handed in, an answer that the cache gives
-- for a name at a time is one that the resolver gave for that name, asked for less than 300
-- seconds before if it holds records and less than 60 if there were none; it is no transient error.
pub cached-Source :
    {h : List Reply} {c : Cache} (now : ℕ) (name : Text) (answer : Answer)
    → Reach h c
    → cached now name c ≡ some answer
    → (r : Reply) × In r h
      × (r.name ≡ name)
      × (r.answer ≡ answer)
      × ((t : ℕ) × (ttl answer ≡ some t) × (now < r.asked + t))
unfolding cached
cached-Source {c = c} now name answer reached hit = elim (Option-cases (lookup name c.entries)) [
  | inl absent ↦ absurd (cc (rw absent at hit))
  | inr (e, found) ↦
      let (r, i, n, a, t) = Reach-Sourced reached name e found in
      let same : e.answer ≡ answer = ground (arith, rw found at hit) in
      (r, i, n, a ∙ same, (t.0, ap ttl (sym same) ∙ t.1, ground (arith, t.2, rw found at hit)))
]
