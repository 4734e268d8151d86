-- ===== src/Alerts/Outcomes.antt =====
-- What the senders promise to the dispatch: one outcome for each recipient, and no other.
use metroflow_ai_backend.Common.{
  ℕ, zero, suc, ◌+◌, ◌*◌, ◌≤◌, ◌≡◌, refl, ◌∙◌, Bool, true, false, ◌||◌, not, Option, List, [], ◌∷◌,
  ◌==◌, is_some, Text, Text-discrete, inl, inr, Option-cases, Bool-cases, arith, length,
  length-append,
}
use metroflow_ai_backend.Common.Dict.{
  Dict, lookup, insert, lookup-insert, HasDistinct, insert-HasDistinct,
}
use metroflow_ai_backend.Geo.{is_in}
use metroflow_ai_backend.Alerts.Email.{
  SendSettings, SendError, MailServer, Session, send_once, send_attempts, attempts, outcome_of,
  send_to, send_alert_emails, sms_to, send_alert_sms, failed_all, is_transient_smtp_error,
  reconnect,
}

pub record IsSender (send : List Text → Dict Text Text) : Type 0 where
  pub distinct : (recipients : List Text) → HasDistinct Text-discrete (send recipients)
  pub outcomes :
      (recipients : List Text) (r : Text)
      → is_some (lookup Text-discrete r (send recipients)) ≡ is_in r recipients

-- A result more, a recipient less to go.
one_more :
    (q r v : Text) (rs : List Text) (results : Dict Text Text)
    → (is_in r rs || is_some (lookup Text-discrete r (insert Text-discrete q v results)))
      ≡ (is_in r (q ∷ rs) || is_some (lookup Text-discrete r results))
one_more q r v rs results =
    ground (arith, lookup-insert Text-discrete q r v results, Bool-cases (is_in r rs))

none_before : (r : Text) (b : Bool) → (b || is_some (lookup {V = Text} Text-discrete r [])) ≡ b
unfolding lookup
none_before r true = refl
none_before r false = refl

failed_all-HasDistinct :
    (why : Text) (recipients : List Text) (results : Dict Text Text)
    → HasDistinct Text-discrete results
    → HasDistinct Text-discrete (failed_all why recipients results)
failed_all-HasDistinct why [] results h = h
failed_all-HasDistinct why (r ∷ rs) results h =
    failed_all-HasDistinct why rs _ (insert-HasDistinct Text-discrete r why results h)

failed_all-outcomes :
    (why : Text) (recipients : List Text) (results : Dict Text Text) (r : Text)
    → is_some (lookup Text-discrete r (failed_all why recipients results))
      ≡ (is_in r recipients || is_some (lookup Text-discrete r results))
failed_all-outcomes why [] results r = refl
failed_all-outcomes why (q ∷ rs) results r =
    failed_all-outcomes why rs _ r ∙ one_more q r why rs results

module _ (settings : SendSettings) (server : MailServer) where
  send_to-HasDistinct :
      (recipients : List Text) (results : Dict Text Text) (s : Session)
      → HasDistinct Text-discrete results
      → HasDistinct Text-discrete (send_to settings server recipients results s).0
  send_to-HasDistinct [] results s h = h
  send_to-HasDistinct (r ∷ rs) results s h =
      send_to-HasDistinct rs _ _ (insert-HasDistinct Text-discrete r _ results h)

  send_to-outcomes :
      (recipients : List Text) (results : Dict Text Text) (s : Session) (r : Text)
      → is_some (lookup Text-discrete r (send_to settings server recipients results s).0)
        ≡ (is_in r recipients || is_some (lookup Text-discrete r results))
  send_to-outcomes [] results s r = refl
  send_to-outcomes (q ∷ rs) results s r = send_to-outcomes rs _ _ r ∙ one_more q r _ rs results

  -- Each recipient has exactly one outcome, and nobody else has one.
  pub send_alert_emails-IsSender :
      (configured : Bool) (s : Session)
      → IsSender (λ recipients. (send_alert_emails settings server configured recipients s).0)
  unfolding send_alert_emails
  send_alert_emails-IsSender true s = record {
    distinct = λ rs. send_to-HasDistinct rs [] _ tt;
    outcomes = λ rs r. send_to-outcomes rs [] _ r ∙ none_before r _;
  }
  send_alert_emails-IsSender false s = record {
    distinct = λ rs. failed_all-HasDistinct _ rs [] tt;
    outcomes = λ rs r. failed_all-outcomes _ rs [] r ∙ none_before r _;
  }

  reconnect_sends : (s : Session) → length (reconnect settings server s).1.sends ≡ length s.sends
  reconnect_sends s = ground (arith, Option-cases (server.connect s.connects))

  send_once_sends :
      (recipient : Text) (s : Session)
      → length (send_once settings server recipient s).1.sends ≤ length s.sends + 1
  send_once_sends recipient s =
      ground
        (arith, Option-cases (server.connect s.connects), length-append s.sends (recipient ∷ []))

  send_attempts_sends :
      (left backoff : ℕ) (recipient : Text) (s : Session)
      → length (send_attempts settings server left backoff recipient s).1.sends
        ≤ length s.sends + left
  unfolding send_attempts
  send_attempts_sends zero backoff recipient s = omega arith
  send_attempts_sends (suc left) backoff recipient s =
      let tried = send_once_sends recipient s in
      elim (Option-cases (send_once settings server recipient s).0) [
        | inl a ↦ rw (send_attempts, a) (omega (arith, tried))
        | inr (exc, a) ↦ elim (Bool-cases (not (is_transient_smtp_error exc) || left == 0)) [
          | inl b ↦ rw (send_attempts, a, b) (omega (arith, tried))
          | inr b ↦
              rw (send_attempts, a, b)
                (omega (arith, tried, send_attempts_sends left _ recipient _))
        ]
      ]

  send_to_sends :
      (recipients : List Text) (results : Dict Text Text) (s : Session)
      → length (send_to settings server recipients results s).1.sends
        ≤ length s.sends + attempts settings server * length recipients
  send_to_sends [] results s = omega arith
  send_to_sends (r ∷ rs) results s =
      let first = send_attempts_sends (attempts settings server) settings.backoff_floor r s in
      let rest =
        send_to_sends rs
          (insert Text-discrete r
            (outcome_of
              (send_attempts settings server (attempts settings server) settings.backoff_floor r
                s).0)
            results)
          (send_attempts settings server (attempts settings server) settings.backoff_floor r s).1 in
      grind (arith, first, rest)

  -- The senders call the mail server at most as often for all recipients as there are recipients
  -- times allowed attempts, whatever it answers.
  pub send_alert_emails_bound :
      (configured : Bool) (recipients : List Text) (s : Session)
      → length (send_alert_emails settings server configured recipients s).1.sends
        ≤ length s.sends + attempts settings server * length recipients
  unfolding send_alert_emails
  send_alert_emails_bound true recipients s =
      let opened = reconnect_sends (record s { connected = false }) in
      let all =
        send_to_sends recipients []
          (reconnect settings server (record s { connected = false })).1 in
      omega (arith, opened, all)
  send_alert_emails_bound false recipients s = omega arith

module _ (settings : SendSettings) (post : ℕ → Text → Option SendError) where
  sms_to-HasDistinct :
      (recipients : List Text) (results : Dict Text Text) (s : Session)
      → HasDistinct Text-discrete results
      → HasDistinct Text-discrete (sms_to settings post recipients results s).0
  sms_to-HasDistinct [] results s h = h
  sms_to-HasDistinct (r ∷ rs) results s h =
      sms_to-HasDistinct rs _ _ (insert-HasDistinct Text-discrete r _ results h)

  sms_to-outcomes :
      (recipients : List Text) (results : Dict Text Text) (s : Session) (r : Text)
      → is_some (lookup Text-discrete r (sms_to settings post recipients results s).0)
        ≡ (is_in r recipients || is_some (lookup Text-discrete r results))
  sms_to-outcomes [] results s r = refl
  sms_to-outcomes (q ∷ rs) results s r = sms_to-outcomes rs _ _ r ∙ one_more q r _ rs results

  pub send_alert_sms-IsSender :
      (configured : Bool) (s : Session)
      → IsSender (λ recipients. (send_alert_sms settings post configured recipients s).0)
  unfolding send_alert_sms
  send_alert_sms-IsSender true s = record {
    distinct = λ rs. sms_to-HasDistinct rs [] _ tt;
    outcomes = λ rs r. sms_to-outcomes rs [] _ r ∙ none_before r _;
  }
  send_alert_sms-IsSender false s = record {
    distinct = λ rs. failed_all-HasDistinct _ rs [] tt;
    outcomes = λ rs r. failed_all-outcomes _ rs [] r ∙ none_before r _;
  }
