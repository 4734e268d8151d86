-- ===== src/Alerts/Email.antt =====
-- The senders of app/core/email.py and app/core/sms.py: each recipient is tried until it is sent, the
-- error is not transient, or the attempts are used up. What smtplib and urllib answer is a parameter.
use metroflow_ai_backend.Common.{
  ℕ, zero, suc, ◌+◌, ◌*◌, min, max, Bool, true, false, ◌&&◌, ◌||◌, not, Option, none, some, List,
  [], ◌∷◌, ◌++◌, if◌then◌else◌, leb, ltb, ◌==◌, Text, Text-discrete, codes, length,
}
use metroflow_ai_backend.Common.Dict.{Dict, insert}

-- What an exception of a send tells: its class, as the senders tell them apart, its code, its text.
pub data ErrorKind : Type 0 where
  disconnected : ErrorKind
  smtp : Option ℕ → ErrorKind
  http : ℕ → ErrorKind
  network other : ErrorKind

pub record SendError : Type 0 where
  pub kind : ErrorKind
  pub text : Text

-- `_is_transient_smtp_error`
abbrev pub is_transient_smtp_error : SendError → Bool
is_transient_smtp_error exc = elim exc.kind [
  | disconnected ↦ true
  | smtp code ↦ elim code [ none ↦ false | some c ↦ leb 400 c && ltb c 500 ]
  | http code ↦ true
  | network ↦ true
  | other ↦ false
]

-- `_is_transient_sms_error`
abbrev pub is_transient_sms_error : SendError → Bool
is_transient_sms_error exc = elim exc.kind [
  | disconnected ↦ true
  | smtp code ↦ true
  | http code ↦ code == 429 || leb 500 code
  | network ↦ true
  | other ↦ false
]

-- The settings: the attempts, and the back-off in milliseconds.
pub record SendSettings : Type 0 where
  pub max_attempts : ℕ
  pub backoff_floor : ℕ
  pub backoff_cap : ℕ

-- What has happened: the number of calls to connect and to send, the sleeps, whether a server is
-- connected.
pub record Session : Type 0 where
  pub connects : ℕ
  pub sends : List Text
  pub sleeps : List ℕ
  pub connected : Bool

abbrev pub outcome_of : Option SendError → Text
outcome_of none = codes "sent"
outcome_of (some exc) = codes "failed: " ++ exc.text

-- The results where the provider is not configured.
abbrev pub failed_all : Text → List Text → Dict Text Text → Dict Text Text
failed_all why [] results = results
failed_all why (recipient ∷ rest) results =
    failed_all why rest (insert Text-discrete recipient why results)

-- A mail server: what a call to connect, and one to send, raises.
pub record MailServer : Type 0 where
  pub connect : ℕ → Option SendError
  pub sendmail : ℕ → Text → Option SendError

module _ (settings : SendSettings) (server : MailServer) where
  -- `if server is None: server = _connect()`
  abbrev pub reconnect : Session → Option SendError × Session
  reconnect s = if s.connected then (none, s) else elim (server.connect s.connects) [
    | none ↦ (none, record s { connects = s.connects + 1; connected = true })
    | some exc ↦ (some exc, record s { connects = s.connects + 1 })
  ]

  -- One attempt: what it raises.
  abbrev pub send_once : Text → Session → Option SendError × Session
  send_once recipient s =
      let opened : Option SendError × Session = reconnect s in
      elim opened.0 [
        | some exc ↦ (some exc, opened.1)
        | none ↦ (
          server.sendmail (length opened.1.sends) recipient,
          record opened.1 { sends = opened.1.sends ++ recipient ∷ [] },
        )
      ]

  -- The loop over the attempts that are left: the last exception, and the session.
  unfoldable pub send_attempts : ℕ → ℕ → Text → Session → Option SendError × Session
  send_attempts zero backoff recipient s = (none, s)
  send_attempts (suc left) backoff recipient s =
      let tried : Option SendError × Session = send_once recipient s in
      elim tried.0 [
        | none ↦ (none, tried.1)
        | some exc ↦
            let again =
              send_attempts left (min (backoff * 2) settings.backoff_cap) recipient
                (record tried.1 { connected = false; sleeps = tried.1.sleeps ++ backoff ∷ [] }) in
            if not (is_transient_smtp_error exc) || left == 0
            then (some exc, record tried.1 { connected = false })
            else again
      ]

  abbrev pub attempts : ℕ
  attempts = max settings.max_attempts 1

  -- The loop over the recipients.
  abbrev pub send_to : List Text → Dict Text Text → Session → Dict Text Text × Session
  send_to [] results s = (results, s)
  send_to (recipient ∷ rest) results s =
      let sent = send_attempts attempts settings.backoff_floor recipient s in
      send_to rest (insert Text-discrete recipient (outcome_of sent.0) results) sent.1

  -- `send_alert_emails`; the server is connected once before the loop, and an error of that is tried
  -- again in it.
  unfoldable pub send_alert_emails : Bool → List Text → Session → Dict Text Text × Session
  unfolding send_attempts
  send_alert_emails configured recipients s =
      if configured
      then send_to recipients [] (reconnect (record s { connected = false })).1
      else (failed_all (codes "failed: SMTP not configured") recipients [], s)

-- The loop of `send_alert_sms` over the attempts that are left: what a call of the provider raises is
-- given by the number of calls before it.
module _ (settings : SendSettings) (post : ℕ → Text → Option SendError) where
  unfoldable pub sms_attempts : ℕ → ℕ → Text → Session → Option SendError × Session
  sms_attempts zero backoff recipient s = (none, s)
  sms_attempts (suc left) backoff recipient s =
      let tried : Session = record s { sends = s.sends ++ recipient ∷ [] } in
      elim (post (length s.sends) recipient) [
        | none ↦ (none, tried)
        | some exc ↦
            let again =
              sms_attempts left (min (backoff * 2) settings.backoff_cap) recipient
                (record tried { sleeps = s.sleeps ++ backoff ∷ [] }) in
            if not (is_transient_sms_error exc) || left == 0 then (some exc, tried) else again
      ]

  abbrev pub sms_to : List Text → Dict Text Text → Session → Dict Text Text × Session
  sms_to [] results s = (results, s)
  sms_to (recipient ∷ rest) results s =
      let sent = sms_attempts (max settings.max_attempts 1) settings.backoff_floor recipient s in
      sms_to rest (insert Text-discrete recipient (outcome_of sent.0) results) sent.1

  -- `send_alert_sms`
  unfoldable pub send_alert_sms : Bool → List Text → Session → Dict Text Text × Session
  unfolding sms_attempts
  send_alert_sms configured recipients s =
      if configured
      then sms_to recipients [] s
      else (failed_all (codes "failed: Twilio not configured") recipients [], s)
