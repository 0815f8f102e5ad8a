-- ===== src/SenderAuth/Cache.antt =====
-- `lookupTXT` of internal/senderauth/senderauth.go: the bounded FIFO cache of TXT answers. The lock
-- is given up while the resolver is asked, so the two halves that hold it, `cached` and `remember`,
-- are separate operations, between which other threads run.
pub mod Tracking
pub mod History
use elec_postal.Base.{
  ℕ, ◌+◌, Option, none, some, List, [], ◌∷◌, ◌++◌, length, ltb, leb, if◌then◌else◌,
}
use elec_postal.Text.{Text, text_eq, member}
use elec_postal.SenderAuth.State.{Answer, records, not_found, failed}

-- Times and durations are in seconds.
abbrev pub txt_ttl : ℕ
txt_ttl = 300

abbrev pub txt_negative_ttl : ℕ
txt_negative_ttl = 60

abbrev pub cache_max : ℕ
cache_max = 1024

-- `values` and `err` are the answer.
pub record Entry : Type 0 where
  pub answer : Answer
  pub expires : ℕ

-- The map is an association list in which a new key comes last.
pub record Cache : Type 0 where
  pub entries : List (Text × Entry)
  pub order : List Text

abbrev pub empty : Cache
empty = record { entries = []; order = [] }

abbrev pub keys : List (Text × Entry) → List Text
keys [] = []
keys ((k, e) ∷ l) = k ∷ keys l

pub lookup : Text → List (Text × Entry) → Option Entry
lookup name [] = none
lookup name ((k, e) ∷ l) = if text_eq k name then some e else lookup name l

pub put : Text → Entry → List (Text × Entry) → List (Text × Entry)
put name entry [] = (name, entry) ∷ []
put name entry ((k, e) ∷ l) = if text_eq k name then (k, entry) ∷ l else (k, e) ∷ put name entry l

pub delete : Text → List (Text × Entry) → List (Text × Entry)
delete name [] = []
delete name ((k, e) ∷ l) =
    let rest = delete name l in if text_eq k name then rest else (k, e) ∷ rest

-- The first half: an entry that is there and has not expired.
abbrev fresh : ℕ → Option Entry → Option Answer
fresh now none = none
fresh now (some e) = if ltb now e.expires then some e.answer else none

unfoldable pub cached : ℕ → Text → Cache → Option Answer
unfolding lookup
cached now name c = fresh now (lookup name c.entries)

-- how long an answer is kept; a transient error is not
unfoldable pub ttl : Answer → Option ℕ
ttl (records rs) = some txt_ttl
ttl not_found = some txt_negative_ttl
ttl failed = none

-- `none` is the panic of `v.cacheOrder[0]` on an empty slice
evict_oldest : List Text → Cache → Option Cache
unfolding delete
evict_oldest [] c = none
evict_oldest (oldest ∷ rest) c = some (record { entries = delete oldest c.entries; order = rest })

make_room : Cache → Option Cache
unfolding evict_oldest
make_room c = if leb cache_max (length c.entries) then evict_oldest c.order c else some c

abbrev appended : Text → Option Cache → Option Cache
appended name none = none
appended name (some c) = some (record c { order = c.order ++ name ∷ [] })

abbrev with_entry : Text → Entry → Option Cache → Option Cache
with_entry name entry none = none
with_entry name entry (some c) = some (record c { entries = put name entry c.entries })

-- The second half, for an answer that is kept.
pub store : Text → Entry → Cache → Option Cache
unfolding make_room put
store name entry c =
    with_entry name entry
      (if member name (keys c.entries) then some c else appended name (make_room c))

abbrev remember_for : ℕ → Text → Answer → Cache → Option ℕ → Option Cache
remember_for now name answer c none = some c
remember_for now name answer c (some t) =
    store name (record { answer = answer; expires = now + t }) c

-- What `lookupTXT` does to the cache once the resolver has answered; `now` was read before.
unfoldable pub remember : ℕ → Text → Answer → Cache → Option Cache
unfolding ttl store
remember now name answer c = remember_for now name answer c (ttl answer)
