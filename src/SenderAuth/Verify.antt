-- ===== src/SenderAuth/Verify.antt =====
-- `Verify` of internal/senderauth/senderauth.go: SPF, DKIM and DMARC in turn.
pub mod Allows
mod Tests
use elec_postal.Base.{Option, none, some, List, [], ◌∷◌, ◌++◌, if◌then◌else◌}
use elec_postal.Text.{Text, codes}
use elec_postal.SenderAuth.State.{
  Verdict, fail, temperror, Disposition, quarantine, reject, State, ◌>>=◌, pure, Env,
}
use elec_postal.SenderAuth.Address.{domain_of}
use elec_postal.SenderAuth.Spf.{verify_spf}
use elec_postal.SenderAuth.Dmarc.{verify_dmarc}
use elec_postal.SenderAuth.Dkim.Canonical.{Header}
use elec_postal.SenderAuth.Dkim.Keys.{Crypto}
use elec_postal.SenderAuth.Dkim.{verify_dkim}

pub record Result : Type 0 where
  pub spf : Verdict
  pub dkim : Verdict
  pub dmarc : Disposition
  pub warnings : List Text

-- `parseMessage`, `Header.AddressList` for From (none is an error) and `net.SplitHostPort` (the host,
-- none is an error).
pub record MailLibrary : Type 0 where
  pub parse_message : Text → Option (Header × Text)
  pub from_addresses : Header → Option (List Text)
  pub split_host_port : Text → Option Text

abbrev or_whole : Text → Option Text → Text
or_whole s none = s
or_whole s (some host) = host

abbrev first_domain : Option (List Text) → Text
first_domain none = []
first_domain (some []) = []
first_domain (some (address ∷ addresses)) = domain_of address

abbrev pub spf_warnings : Verdict → List Text
spf_warnings fail = codes "Possible phishing: SPF verification failed" ∷ []
spf_warnings _ = []

abbrev pub dkim_warnings : Verdict → List Text
dkim_warnings fail = codes "Possible forgery: DKIM signature is invalid" ∷ []
dkim_warnings _ = []

abbrev pub dmarc_warnings : Disposition → List Text
dmarc_warnings reject = codes "Domain policy rejects unauthenticated mail" ∷ []
dmarc_warnings quarantine = codes "Domain policy quarantines unauthenticated mail" ∷ []
dmarc_warnings _ = []

module _ (mail : MailLibrary) where
  unfoldable pub host_only : Text → Text
  host_only s = or_whole s (mail.split_host_port s)

  unfoldable pub from_domain_of : Header → Text
  unfolding domain_of
  from_domain_of header = first_domain (mail.from_addresses header)

  module _ {K W : Type 0} (lib : Crypto K) (env : Env W) where
    -- the switch for DKIM behind the test of the context
    abbrev pub dkim_of : Option (Header × Text) → State W (Verdict × Text)
    dkim_of none = pure (Verdict.none, [])
    dkim_of (some (header, body)) = verify_dkim lib header body env

    abbrev pub dmarc_of :
        Text → Verdict → Verdict × Text → Option (Header × Text) → State W Disposition
    dmarc_of envelope_from spf dkim none = pure Disposition.none
    dmarc_of envelope_from spf (dkim, dkim_d) (some (header, body)) =
        verify_dmarc (from_domain_of header) (domain_of envelope_from) spf dkim dkim_d env

    unfoldable pub spf_stage : Text → Text → State W Verdict
    unfolding verify_spf
    spf_stage envelope_from peer_ip = do
      late ← env.expired
      if late then pure temperror else verify_spf env envelope_from peer_ip

    unfoldable pub dkim_stage : Option (Header × Text) → State W (Verdict × Text)
    unfolding verify_dkim
    dkim_stage message = do
      late ← env.expired
      if late then pure (temperror, []) else dkim_of message

    unfoldable pub dmarc_stage :
        Text → Verdict → Verdict × Text → Option (Header × Text) → State W Disposition
    unfolding verify_dmarc from_domain_of
    dmarc_stage envelope_from spf dkim message = do
      late ← env.expired
      if late then pure Disposition.temperror else dmarc_of envelope_from spf dkim message

    unfoldable pub verify : Text → Text → Text → State W Result
    unfolding spf_stage dkim_stage dmarc_stage host_only
    verify raw envelope_from peer_ip = do
      spf ← spf_stage envelope_from (host_only peer_ip)
      let message = mail.parse_message raw
      dkim ← dkim_stage message
      dmarc ← dmarc_stage envelope_from spf dkim message
      pure (record {
        spf = spf;
        dkim = dkim.0;
        dmarc = dmarc;
        warnings = spf_warnings spf ++ dkim_warnings dkim.0 ++ dmarc_warnings dmarc;
      })
