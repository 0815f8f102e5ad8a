-- ===== src/SenderAuth/Cache/Tracking.antt =====
-- The map and the queue of `verifier` hold the same names, each once, and at most `cacheMax`.
use elec_postal.Base.{
  ℕ, suc, ◌≤◌, ◌<◌, ◌≡◌, refl, ap, ◌∙◌, true, false, ◌||◌, some, List, [], ◌∷◌, ◌++◌, arith,
  Bool-cases, inl, inr, length, length-append, leb, if◌then◌else◌,
}
use elec_postal.Text.{Text, text_eq, text_eq_iff, member}
use elec_postal.SenderAuth.State.{Answer, records, not_found, failed}
use elec_postal.SenderAuth.Cache.{
  Entry, Cache, empty, keys, put, delete, evict_oldest, make_room, store, remember, cache_max,
}

-- no name twice
abbrev pub Distinct : List Text → Type 0
Distinct [] = Unit
Distinct (n ∷ ns) = (member n ns ≡ false) × Distinct ns

pub record IsTracked (c : Cache) : Type 0 where
  pub same : keys c.entries ≡ c.order
  pub distinct : Distinct c.order
  pub bounded : length c.order ≤ cache_max

keys-put :
    (name : Text) (e : Entry) (l : List (Text × Entry))
    → keys (put name e l) ≡ (if member name (keys l) then keys l else keys l ++ name ∷ [])
unfolding put member
keys-put name e [] = refl
keys-put name e ((k, x) ∷ l) =
    ground (arith, keys-put name e l, text_eq_iff k name, text_eq_iff name k)

length-keys : (l : List (Text × Entry)) → length (keys l) ≡ length l
length-keys [] = refl
length-keys ((k, e) ∷ l) = ap suc (length-keys l)

delete_absent :
    (name : Text) (l : List (Text × Entry)) → member name (keys l) ≡ false → delete name l ≡ l
unfolding delete member
delete_absent name [] h = refl
delete_absent name ((k, e) ∷ l) h =
    ground (arith, delete_absent name l, text_eq_iff k name, text_eq_iff name k)

member-append :
    (m : Text) (ns : List Text) (n : Text) → member m (ns ++ n ∷ []) ≡ (member m ns || text_eq m n)
unfolding member
member-append m [] n = ground arith
member-append m (x ∷ ns) n = ground (arith, member-append m ns n)

Distinct-append :
    (ns : List Text) (n : Text) → Distinct ns → member n ns ≡ false → Distinct (ns ++ n ∷ [])
unfolding member
Distinct-append [] n d h = (refl, tt)
Distinct-append (x ∷ ns) n d h = (
  ground (arith, member-append x ns n, text_eq_iff x n, text_eq_iff n x),
  Distinct-append ns n d.1 (ground (arith, h)),
)

abbrev cache_of : List (Text × Entry) → List Text → Cache
cache_of l q = record { entries = l; order = q }

-- What making room for a new name leaves: a tracked cache that is not full, with no new name.
record HasRoom (c c' : Cache) : Type 0 where
  tracked : IsTracked c'
  room : length c'.order < cache_max
  fewer : (m : Text) → member m c.order ≡ false → member m c'.order ≡ false

room-full :
    (l : List (Text × Entry)) (q : List Text)
    → IsTracked (cache_of l q)
    → leb cache_max (length l) ≡ true
    → (c' : Cache) × (evict_oldest q (cache_of l q) ≡ some c') × HasRoom (cache_of l q) c'
unfolding evict_oldest member delete
room-full [] q t h = absurd (ground arith)
room-full ((k, e) ∷ l) [] t h = absurd (cc (t.same))
room-full ((k, e) ∷ l) (o ∷ q) t h =
    let head : k ≡ o = cc t.same in
    let tail : keys l ≡ q = cc t.same in
    let absent : member o (keys l) ≡ false = rw tail t.distinct.0 in
    (
      cache_of l q,
      ground (arith, head, text_eq_iff k o, delete_absent o l absent),
      record {
        tracked = record { same = tail; distinct = t.distinct.1; bounded = omega arith };
        room = omega arith;
        fewer = λ m n. ground (arith, n);
      },
    )

room-free : (c : Cache) → IsTracked c → leb cache_max (length c.entries) ≡ false → HasRoom c c
room-free c t h = record {
  tracked = t;
  room = ground (arith, length-keys c.entries, ap length t.same);
  fewer = λ m n. n;
}

make_room-HasRoom :
    (c : Cache) → IsTracked c → (c' : Cache) × (make_room c ≡ some c') × HasRoom c c'
unfolding make_room
make_room-HasRoom c t = elim (Bool-cases (leb cache_max (length c.entries))) [
  | inl full ↦ rw full (room-full c.entries c.order t full)
  | inr free ↦ rw free (c, refl, room-free c t free)
]

put-IsTracked :
    (c : Cache) (name : Text) (e : Entry)
    → IsTracked c
    → member name (keys c.entries) ≡ true
    → IsTracked (record c { entries = put name e c.entries })
put-IsTracked c name e t h = record {
  same = keys-put name e c.entries ∙ rw h t.same;
  distinct = t.distinct;
  bounded = t.bounded;
}

add-IsTracked :
    (c : Cache) (name : Text) (e : Entry)
    → IsTracked c
    → length c.order < cache_max
    → member name c.order ≡ false
    → IsTracked (record { entries = put name e c.entries; order = c.order ++ name ∷ [] })
add-IsTracked c name e t r h = record {
  same = keys-put name e c.entries ∙ rw (t.same, h);
  distinct = Distinct-append c.order name t.distinct h;
  bounded = omega (arith, length-append c.order (name ∷ []));
}

-- Storing an entry succeeds in a tracked cache and leaves it tracked.
pub store-IsTracked :
    (name : Text) (e : Entry) (c : Cache)
    → IsTracked c
    → (c' : Cache) × (store name e c ≡ some c') × IsTracked c'
unfolding store
store-IsTracked name e c t = elim (Bool-cases (member name (keys c.entries))) [
  | inl old ↦
      rw old (record c { entries = put name e c.entries }, refl, put-IsTracked c name e t old)
  | inr new ↦
      let (c', made, r) = make_room-HasRoom c t in
      rw (new, made)
        (
          record { entries = put name e c'.entries; order = c'.order ++ name ∷ [] },
          refl,
          add-IsTracked c' name e r.tracked r.room (r.fewer name (rw t.same at new)),
        )
]

-- From a tracked cache the second half of `lookupTXT` never reads the head of an empty queue, and
-- it leaves a tracked cache: the map and the queue hold the same names, each once, and at most
-- `cacheMax`.
pub remember-IsTracked :
    (now : ℕ) (name : Text) (answer : Answer) (c : Cache)
    → IsTracked c
    → (c' : Cache) × (remember now name answer c ≡ some c') × IsTracked c'
unfolding remember
remember-IsTracked now name (records rs) c t = store-IsTracked name _ c t
remember-IsTracked now name not_found c t = store-IsTracked name _ c t
remember-IsTracked now name failed c t = (c, refl, t)

pub empty-IsTracked : IsTracked empty
empty-IsTracked = record { same = refl; distinct = tt; bounded = omega arith }
