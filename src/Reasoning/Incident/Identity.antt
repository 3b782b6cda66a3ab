-- ===== src/Reasoning/Incident/Identity.antt =====
-- src/reasoning/incident.rs: the identity of a normalized alert.
use ai_sre.Prelude.{◌≡◌, refl, true, List, [], ◌∷◌, ◌++◌, map, all, All, arith, text}
use ai_sre.Reasoning.Incident.Time.{parse_rfc3339_millis}
use ai_sre.Reasoning.Incident.{
  AlertSignal, AlertmanagerWebhook, IncidentSignal, is_valid_alert, is_some, validate_webhook,
  normalize, normalize_webhook,
}

-- What the dispatcher relies on: the identities follow from the correlation key, the signal is of
-- the first episode, and its time is read from its text.
pub record IsNormal (i : IncidentSignal) : Type 0 where
  pub incident_id : i.incident_id ≡ text "incident-" ++ i.correlation_id
  pub episode : i.episode ≡ 1
  pub event_time_ms : i.event_time_ms ≡ parse_rfc3339_millis i.event_time

pub normalize-IsNormal : (a : AlertSignal) → IsNormal (normalize a)
unfolding normalize
normalize-IsNormal a = record { incident_id = refl; episode = refl; event_time_ms = refl }

valid_time :
    (a : AlertSignal) → is_valid_alert a ≡ true → is_some (normalize a).event_time_ms ≡ true
unfolding normalize is_valid_alert
valid_time a h = ground arith

abbrev pub IsReady : IncidentSignal → Type 0
IsReady i = IsNormal i × (is_some i.event_time_ms ≡ true)

IsReady-of_valid :
    (as' : List AlertSignal) → all is_valid_alert as' ≡ true → All IsReady (map normalize as')
IsReady-of_valid [] h = tt
IsReady-of_valid (a ∷ as') h =
    ((normalize-IsNormal a, valid_time a (ground arith)), IsReady-of_valid as' (ground arith))

-- Every signal of a webhook that passes validation has the first episode's identity and a time that
-- was read from its text.
pub normalize_webhook-IsReady :
    (w : AlertmanagerWebhook) → validate_webhook w ≡ true → All IsReady (normalize_webhook w)
unfolding normalize_webhook validate_webhook
normalize_webhook-IsReady w h = IsReady-of_valid w.alerts (unfold is_valid_alert in ground arith)
