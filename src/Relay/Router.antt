-- ===== src/Relay/Router.antt =====
-- `LocalMXRouter` of internal/relay/local_mx_router.go, with `envelopeRecipients` and `hasLocalMX` of
-- direct_smtp.go. `C` is what a message holds besides its recipients.
pub mod Complete
use elec_postal.Base.{
  Bool, true, false, not, ◌&&◌, ◌||◌, Option, none, some, List, [], ◌∷◌, ◌++◌, map, if◌then◌else◌,
}
use elec_postal.Text.{
  Text, codes, text_eq, is_nil, to_lower, trim_space, trim_suffix, split, member, contains_text,
}
use elec_postal.SenderAuth.State.{State, ◌>>=◌, pure}

pub record Message (C : Type 0) : Type 0 where
  pub to : List Text
  pub cc : List Text
  pub bcc : List Text
  pub content : C

abbrev pub all_recipients : {C : Type 0} → Message C → List Text
all_recipients message = (message.to ++ message.cc) ++ message.bcc

-- The fields of the router, and `mail.ParseAddress`. The results of the two deliveries say that there
-- was no error; `lookup_mx` gives the host names, none for an error.
pub record Router (C W : Type 0) : Type 0 where
  pub inbound_host : Text
  pub local_delivery : Option (Message C → List Text → State W Bool)
  pub fallback : Message C → State W Bool
  pub lookup_mx : Text → State W (Option (List Text))
  pub parse_address : Text → Option Text

unfoldable pub normalize_hostname : Text → Text
normalize_hostname host = to_lower (trim_suffix b'.' (trim_space host))

pub some_host : Text → List Text → Bool
some_host hostname [] = false
some_host hostname (mx ∷ records) =
    text_eq (normalize_hostname mx) hostname || some_host hostname records

unfoldable pub has_local_mx : List Text → Text → Bool
unfolding some_host normalize_hostname
has_local_mx records hostname =
    let name = normalize_hostname hostname in if is_nil name then false else some_host name records

unfoldable pub filter_recipients : List Text → List Text → List Text
filter_recipients [] excluded = []
filter_recipients (r ∷ rs) excluded =
    let rest = filter_recipients rs excluded in
    if member (to_lower r) excluded then rest else r ∷ rest

unfoldable pub exclude_recipients : {C : Type 0} → Message C → List Text → Message C
unfolding filter_recipients
exclude_recipients message excluded = record message {
  to = filter_recipients message.to excluded;
  cc = filter_recipients message.cc excluded;
  bcc = filter_recipients message.bcc excluded;
}

abbrev last_or : Text → List Text → Text
last_or t [] = t
last_or t (u ∷ us) = last_or u us

pub domain_of_recipient : Text → Text
domain_of_recipient recipient = to_lower (last_or [] (split b'@' recipient))

pub add_to_group : Text → Text → List (Text × List Text) → List (Text × List Text)
add_to_group domain recipient [] = (domain, recipient ∷ []) ∷ []
add_to_group domain recipient ((d, rs) ∷ groups) =
    let rest = add_to_group domain recipient groups in
    if text_eq d domain then (d, rs ++ recipient ∷ []) ∷ groups else (d, rs) ∷ rest

-- the map `byDomain`
pub group_by_domain : List Text → List (Text × List Text) → List (Text × List Text)
unfolding add_to_group domain_of_recipient
group_by_domain [] groups = groups
group_by_domain (r ∷ rs) groups = group_by_domain rs (add_to_group (domain_of_recipient r) r groups)

abbrev no_recipients : List Text → Bool
no_recipients [] = true
no_recipients (r ∷ rs) = false

module _ {C W : Type 0} (r : Router C W) where
  valid_address : Option Text → Option Text
  valid_address none = none
  valid_address (some address) =
      if is_nil address || not (contains_text address (codes "@")) then none else some address

  abbrev cons_address : Option Text → Option (List Text) → Option (List Text)
  cons_address none rest = none
  cons_address (some address) none = none
  cons_address (some address) (some rest) = some (address ∷ rest)

  parse_all : List Text → Option (List Text)
  unfolding valid_address
  parse_all [] = some []
  parse_all (raw ∷ raws) = cons_address (valid_address (r.parse_address raw)) (parse_all raws)

  envelope_recipients : Message C → Option (List Text)
  unfolding parse_all
  envelope_recipients message =
      if no_recipients (all_recipients message) then none else parse_all (all_recipients message)

  abbrev is_local : Option (List Text) → Bool
  is_local none = false
  is_local (some records) = has_local_mx records r.inbound_host

  -- what the loop does behind a local delivery
  after_local :
      (List Text → State W (Option (List Text)))
      → List Text
      → List Text
      → Bool
      → State W (Option (List Text))
  after_local rest rs excluded true w = rest (excluded ++ map to_lower rs) w
  after_local rest rs excluded false w = (none, w)

  -- The loop over domains gives the addresses that were delivered, in lower case.
  deliver_groups :
      (Message C → List Text → State W Bool)
      → Message C
      → List (Text × List Text)
      → List Text
      → State W (Option (List Text))
  unfolding after_local
  deliver_groups deliver message [] excluded w = (some excluded, w)
  deliver_groups deliver message ((domain, rs) ∷ groups) excluded w =
      let (records, w') = r.lookup_mx domain w in
      elim (is_local records) [
        | true ↦
            let (ok, w'') = deliver message rs w' in
            after_local (λ e v. deliver_groups deliver message groups e v) rs excluded ok w''
        | false ↦ deliver_groups deliver message groups excluded w'
      ]

  send_rest : Message C → Option (List Text) → State W Bool
  send_rest message none = pure false
  send_rest message (some excluded) =
      let external = exclude_recipients message excluded in
      if no_recipients external.to && (no_recipients external.cc && no_recipients external.bcc)
      then pure true
      else r.fallback external

  send_parsed :
      (Message C → List Text → State W Bool) → Message C → Option (List Text) → State W Bool
  unfolding send_rest deliver_groups group_by_domain
  send_parsed deliver message none = pure false
  send_parsed deliver message (some recipients) = do
    excluded ← deliver_groups deliver message (group_by_domain recipients []) []
    send_rest message excluded

  send_with : Option (Message C → List Text → State W Bool) → Message C → State W Bool
  unfolding send_parsed envelope_recipients
  send_with none message = r.fallback message
  send_with (some deliver) message =
      if is_nil (trim_space r.inbound_host)
      then r.fallback message
      else send_parsed deliver message (envelope_recipients message)

  unfoldable pub send : Message C → State W Bool
  unfolding send_with
  send message = send_with r.local_delivery message
