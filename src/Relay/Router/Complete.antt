-- ===== src/Relay/Router/Complete.antt =====
-- Where the router sends the recipients of a message.
use elec_postal.Base.{
  ◌≡◌, ◌⊎◌, inl, inr, refl, sym, ap, ◌∙◌, Bool, true, false, not, ◌&&◌, Option, none, some, List,
  [], ◌∷◌, ◌++◌, map, arith, Bool-cases, if◌then◌else◌,
}
use elec_postal.Text.{Text, text_eq_iff, is_nil, to_lower, trim_space, member}
use elec_postal.SenderAuth.State.{State}
use elec_postal.Relay.Router.{
  Message, all_recipients, Router, filter_recipients, exclude_recipients, group_by_domain,
  no_recipients, envelope_recipients, is_local, after_local, deliver_groups, send_rest, send_parsed,
  send_with, send,
}

-- the surroundings with the addresses of local deliveries without an error, in lower case, and the
-- recipients of the messages for the fallback
abbrev pub Traced : Type 0 → Type 0
Traced W = W × (List Text × List Text)

abbrev logged :
    {C W : Type 0}
    → (Message C → List Text → State W Bool)
    → Message C
    → List Text
    → State (Traced W) Bool
logged deliver message rs s =
    let (ok, w') = deliver message rs s.0 in
    (ok, (w', (if ok then s.1.0 ++ map to_lower rs else s.1.0, s.1.1)))

abbrev pub traced : {C W : Type 0} → Router C W → Router C (Traced W)
traced r = record {
  inbound_host = r.inbound_host;
  local_delivery = elim r.local_delivery [ none ↦ none | some deliver ↦ some (logged deliver) ];
  fallback = λ message s.
      let (ok, w') = r.fallback message s.0 in (ok, (w', (s.1.0, s.1.1 ++ all_recipients message)));
  lookup_mx = λ domain s. let (records, w') = r.lookup_mx domain s.0 in (records, (w', s.1));
  parse_address = r.parse_address;
}

filter_recipients-append :
    (rs rs' excluded : List Text)
    → filter_recipients (rs ++ rs') excluded
      ≡ filter_recipients rs excluded ++ filter_recipients rs' excluded
unfolding filter_recipients
filter_recipients-append [] rs' excluded = refl
filter_recipients-append (r ∷ rs) rs' excluded =
    ground (arith, filter_recipients-append rs rs' excluded)

member-filter_recipients :
    (raw : Text) (rs excluded : List Text)
    → member raw (filter_recipients rs excluded)
      ≡ (member raw rs && not (member (to_lower raw) excluded))
unfolding filter_recipients member
member-filter_recipients raw [] excluded = refl
member-filter_recipients raw (r ∷ rs) excluded =
    ground (arith, member-filter_recipients raw rs excluded, text_eq_iff raw r)

all_recipients-exclude :
    {C : Type 0} (message : Message C) (excluded : List Text)
    → all_recipients (exclude_recipients message excluded)
      ≡ filter_recipients (all_recipients message) excluded
unfolding exclude_recipients
all_recipients-exclude message excluded = sym (
    filter_recipients-append (message.to ++ message.cc) message.bcc excluded
    ∙ ap (λ l. l ++ filter_recipients message.bcc excluded)
        (filter_recipients-append message.to message.cc excluded))

none_left :
    {C : Type 0} (m : Message C)
    → no_recipients m.to && (no_recipients m.cc && no_recipients m.bcc) ≡ true
    → all_recipients m ≡ []
none_left m e = ground (arith, e)

module _ {C W : Type 0} (r : Router C W) where
  -- The fallback got exactly the recipients that local delivery did not reach.
  abbrev Split : Message C → Traced W → Type 0
  Split message s = s.1.1 ≡ filter_recipients (all_recipients message) s.1.0

  -- Nothing was sent to the fallback, and what counts as delivered is what was delivered.
  abbrev Logged : List Text → Option (List Text) × Traced W → Type 0
  Logged sent q = (q.1.1.1 ≡ sent) × ((done : List Text) → q.0 ≡ some done → done ≡ q.1.1.0)

  after_local-log :
      (rest : List Text → State (Traced W) (Option (List Text))) (rs excluded : List Text)
      (ok : Bool) (w : W) (reached sent : List Text)
      → excluded ≡ reached
      → ((e : List Text) (v : Traced W) → e ≡ v.1.0 → Logged v.1.1 (rest e v))
      → Logged sent (
          after_local
            (traced r)
            rest
            rs
            excluded
            ok
            (w, (if ok then reached ++ map to_lower rs else reached, sent)))
  unfolding after_local
  after_local-log rest rs excluded true w reached sent h ih =
      ih (excluded ++ map to_lower rs) (w, (reached ++ map to_lower rs, sent))
        (ap (λ l. l ++ map to_lower rs) h)
  after_local-log rest rs excluded false w reached sent h ih = (refl, λ done e. cc e)

  deliver_groups-log :
      (deliver : Message C → List Text → State W Bool) (message : Message C)
      (groups : List (Text × List Text)) (excluded : List Text) (s : Traced W)
      → excluded ≡ s.1.0
      → Logged s.1.1 (deliver_groups (traced r) (logged deliver) message groups excluded s)
  unfolding deliver_groups
  deliver_groups-log deliver message [] excluded s h = (refl, λ done e. cc (e, h))
  deliver_groups-log deliver message ((domain, rs) ∷ groups) excluded s h =
      let v = (r.lookup_mx domain s.0).1 in
      elim (Bool-cases (is_local (traced r) (r.lookup_mx domain s.0).0)) [
        | inl e ↦
            rw (e, deliver_groups)
              (after_local-log
                (λ x y. deliver_groups (traced r) (logged deliver) message groups x y) rs excluded
                (deliver message rs v).0 (deliver message rs v).1 s.1.0 s.1.1 h
                (λ x y q. deliver_groups-log deliver message groups x y q))
        | inr e ↦
            rw (e, deliver_groups) (deliver_groups-log deliver message groups excluded (v, s.1) h)
      ]

  excluded-Split :
      (message : Message C) (excluded reached : List Text)
      → excluded ≡ reached
      → all_recipients (exclude_recipients message excluded)
        ≡ filter_recipients (all_recipients message) reached
  excluded-Split message excluded reached h =
      all_recipients-exclude message excluded ∙ ap (filter_recipients (all_recipients message)) h

  send_rest-Split :
      (message : Message C) (excluded : Option (List Text)) (s : Traced W)
      → s.1.1 ≡ []
      → ((done : List Text) → excluded ≡ some done → done ≡ s.1.0)
      → let q = send_rest (traced r) message excluded s in q.0 ≡ true → Split message q.1
  unfolding send_rest
  send_rest-Split message none s unsent reached = λ ok. cc ok
  send_rest-Split message (some excluded) s unsent reached =
      let external = exclude_recipients message excluded in
      let same = excluded-Split message excluded s.1.0 (reached excluded refl) in
      elim (Bool-cases
        (no_recipients external.to && (no_recipients external.cc && no_recipients external.bcc))) [
          | inl e ↦ rw (e, send_rest) (λ ok. unsent ∙ (sym (none_left external e) ∙ same))
          | inr e ↦ rw (e, send_rest) (λ ok. ap (λ l. l ++ all_recipients external) unsent ∙ same)
        ]

  send_parsed-Split :
      (deliver : Message C → List Text → State W Bool) (message : Message C)
      (rs : Option (List Text)) (w : W)
      → let q = send_parsed (traced r) (logged deliver) message rs (w, ([], [])) in
        q.0 ≡ true → Split message q.1
  unfolding send_parsed
  send_parsed-Split deliver message none w = λ ok. cc ok
  send_parsed-Split deliver message (some rs) w =
      let log = deliver_groups-log deliver message (group_by_domain rs []) [] (w, ([], [])) refl in
      send_rest-Split message _ _ log.0 log.1

  filter_recipients-none : (rs : List Text) → filter_recipients rs [] ≡ rs
  unfolding filter_recipients member
  filter_recipients-none [] = refl
  filter_recipients-none (x ∷ rs) = ap (λ l. x ∷ l) (filter_recipients-none rs)

  send_with-Split :
      (delivery : Option (Message C → List Text → State W Bool)) (message : Message C) (w : W)
      → let q =
          send_with
            (traced r)
            (elim delivery [ none ↦ none | some deliver ↦ some (logged deliver) ])
            message
            (w, ([], [])) in
        q.0 ≡ true → Split message q.1
  unfolding send_with
  send_with-Split none message w = λ ok. sym (filter_recipients-none (all_recipients message))
  send_with-Split (some deliver) message w =
      elim (Bool-cases (is_nil (trim_space r.inbound_host))) [
        | inl e ↦ rw (e, send_with) (λ ok. sym (filter_recipients-none (all_recipients message)))
        | inr e ↦
            rw (e, send_with)
              (send_parsed-Split deliver message (envelope_recipients (traced r) message) w)
      ]

  send-Split :
      (message : Message C) (w : W)
      → let q = send (traced r) message (w, ([], [])) in q.0 ≡ true → Split message q.1
  unfolding send
  send-Split message w = send_with-Split r.local_delivery message w

  exactly_one :
      (raw : Text) (rs reached sent : List Text)
      → sent ≡ filter_recipients rs reached
      → member raw rs ≡ true
      → ((member (to_lower raw) reached ≡ true) × (member raw sent ≡ false))
        ⊎ ((member (to_lower raw) reached ≡ false) × (member raw sent ≡ true))
  exactly_one raw rs reached sent h listed =
      let e = ap (member raw) h ∙ member-filter_recipients raw rs reached in
      elim (Bool-cases (member (to_lower raw) reached)) [
        | inl q ↦ inl (q, ground (arith, e, q, listed))
        | inr q ↦ inr (q, ground (arith, e, q, listed))
      ]

  -- Where the router returns no error, for each text in To, Cc or Bcc exactly one of two things
  -- holds: in lower case it is an address that was delivered locally, or it is a recipient of the
  -- message that the fallback sent.
  pub send_complete :
      (message : Message C) (w : W) (raw : Text)
      → let q = send (traced r) message (w, ([], [])) in
        q.0 ≡ true
        → member raw (all_recipients message) ≡ true
        → ((member (to_lower raw) q.1.1.0 ≡ true) × (member raw q.1.1.1 ≡ false))
          ⊎ ((member (to_lower raw) q.1.1.0 ≡ false) × (member raw q.1.1.1 ≡ true))
  send_complete message w raw ok listed =
      let q = send (traced r) message (w, ([], [])) in
      exactly_one raw (all_recipients message) q.1.1.0 q.1.1.1 (send-Split message w ok) listed
