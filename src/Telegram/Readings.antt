-- ===== src/Telegram/Readings.antt =====
-- What the listener reads in an event: the guarantees of each reading.
use Prim.Native.String.{String, count}
use telegram_olymptrade_sign.Prelude.{
  ℕ, ◌+◌, ◌≤◌, ◌<◌, ◌≡◌, refl, Bool, true, false, ◌&&◌, Option, none, some, arith, leb, Bool-cases,
  inl, inr, if◌then◌else◌,
}
use telegram_olymptrade_sign.Prelude.Int.{ℤ, eq_ℤ}
use telegram_olymptrade_sign.Config.{Time, seconds}
use telegram_olymptrade_sign.Domain.Signal.{Signal}
use telegram_olymptrade_sign.Domain.Signal.Parser.{
  int_max_str_digits, ParsedSignal, ParseResult, parsed, parse_failure, value_error, parse_signal,
  hhmm_numbers,
}
use telegram_olymptrade_sign.Domain.Signal.Sound.{Sound, parse_signal-Sound}
use telegram_olymptrade_sign.Store.Statements.{pending_row}
use telegram_olymptrade_sign.Clock.{
  Zone, hhmm_to_unix, signal_date_in_tz, is_within_window, is_accepted,
}
use telegram_olymptrade_sign.Scheduler.Adopt.{signal_of_row}
use telegram_olymptrade_sign.Telegram.Channel.{
  Match, not_resolved, matched, chat_matches, event_matches,
}
use telegram_olymptrade_sign.Telegram.Listener.{
  Message, Env, Reading, skipped, failed, out_of_window, signal, resolver_error, value_error_raised,
  text_of, allowed_expirations, is_blank, build_signal, read_parsed, read_text, read_match,
  read_event,
}

-- A signal as the listener may put it on the queue.
abbrev pub Built : Env → Message → Time → Signal → Type 0
Built env event received s =
    (s.expiration_seconds ≡ env.config.expiration_seconds)
    × (received ≤ s.trigger_unix_initial + seconds 60)
    × (s.trigger_unix_initial ≤ received + seconds 1_800)
    × ((hour : ℕ) × ((minute : ℕ) × (hhmm_numbers s.trigger_hhmm ≡ some (hour, minute))
          × (hour ≤ 23)
          × (minute ≤ 59)
          × (s.trigger_unix_initial ≡ env.tz.timestamp (env.tz.date_of received) hour minute)))
    × (signal_of_row (pending_row s) ≡ s)
    × (s.raw_text ≡ text_of event.text)

-- What each reading says of the event.
abbrev pub Guarantee : Env → Message → Time → Reading → Type 0
Guarantee env event received skipped = Unit
Guarantee env event received (failed reason text) = text ≡ text_of event.text
Guarantee env event received (out_of_window hhmm trigger) = is_accepted trigger received ≡ false
Guarantee env event received (signal s) = Built env event received s
Guarantee env event received resolver_error = env.resolver.resolved_chat_id ≡ none
Guarantee env event received value_error_raised = int_max_str_digits < count (text_of event.text)

in_range : (hour minute : ℕ) → hour ≤ 23 → minute ≤ 59 → (leb hour 23 && leb minute 59) ≡ true
in_range hour minute h m = ground arith

hhmm_to_unix-some :
    (tz : Zone) (hhmm : String) (day hour minute : ℕ)
    → hhmm_numbers hhmm ≡ some (hour, minute)
    → hour ≤ 23
    → minute ≤ 59
    → hhmm_to_unix tz hhmm day ≡ some (tz.timestamp day hour minute)
unfolding hhmm_to_unix
hhmm_to_unix-some tz hhmm day hour minute e h m = rw (hhmm_to_unix, e, in_range hour minute h m)

build_signal-Built :
    (env : Env) (event : Message) (received : Time) (p : ParsedSignal) (hour minute : ℕ)
    → allowed_expirations env.config p.expiration_seconds ≡ true
    → hhmm_numbers p.trigger_hhmm ≡ some (hour, minute)
    → hour ≤ 23
    → minute ≤ 59
    → is_accepted (env.tz.timestamp (env.tz.date_of received) hour minute) received ≡ true
    → Built env event received
        (build_signal env event received p (env.tz.timestamp (env.tz.date_of received) hour minute))
unfolding build_signal is_within_window
build_signal-Built env event received p hour minute ok e h m now =
    (ground arith, ground arith, ground arith, (hour, (minute, e, h, m, refl)), refl, refl)

read_parsed-Guarantee :
    (env : Env) (event : Message) (received : Time) (result : ParseResult)
    → Sound (text_of event.text) (allowed_expirations env.config) result
    → Guarantee env event received (read_parsed env event received result)
unfolding read_parsed signal_date_in_tz
read_parsed-Guarantee env event received (parse_failure reason text) sound = sound.0
read_parsed-Guarantee env event received value_error sound = sound
read_parsed-Guarantee env event received (parsed p) (ok, (hour, (minute, e, h, m, _, _))) =
    let trigger = env.tz.timestamp (env.tz.date_of received) hour minute in
    rw
      (
        read_parsed,
        hhmm_to_unix-some env.tz p.trigger_hhmm (env.tz.date_of received) hour minute e h m,
      )
      (elim (Bool-cases (is_accepted trigger received)) [
        | inl now ↦ rw now (build_signal-Built env event received p hour minute ok e h m now)
        | inr late ↦ rw late late
      ])

read_text-Guarantee :
    (env : Env) (event : Message) (received : Time)
    → Guarantee env event received (read_text env event received)
unfolding read_text
read_text-Guarantee env event received = elim (Bool-cases (is_blank (text_of event.text))) [
  | inl blank ↦ rw blank tt
  | inr text ↦ rw text (
      read_parsed-Guarantee env event received
        (parse_signal (text_of event.text) (allowed_expirations env.config))
        (parse_signal-Sound (text_of event.text) (allowed_expirations env.config)))
]

read_match-Guarantee :
    (env : Env) (event : Message) (received : Time) (m : Match)
    → (m ≡ not_resolved → env.resolver.resolved_chat_id ≡ none)
    → Guarantee env event received (read_match env event received m)
unfolding read_match
read_match-Guarantee env event received not_resolved h = h refl
read_match-Guarantee env event received (matched false) h = tt
read_match-Guarantee env event received (matched true) h = read_text-Guarantee env event received

unresolved_only :
    (o : Option ℤ) (f : ℤ → Bool)
    → elim o [ none ↦ not_resolved | some id ↦ matched (f id) ] ≡ not_resolved
    → o ≡ none
unresolved_only none f h = refl
unresolved_only (some id) f h = absurd (cc)

event_matches-not_resolved :
    (env : Env) (event : Message)
    → event_matches env.lower env.resolver event.chat_id event.chat ≡ not_resolved
    → env.resolver.resolved_chat_id ≡ none
unfolding event_matches
event_matches-not_resolved env event h =
    unresolved_only env.resolver.resolved_chat_id
      (λ id. eq_ℤ event.chat_id id && chat_matches env.lower env.resolver event.chat) h

-- The handler raises a ValueError only on an event whose text has more than 4300 characters, and a
-- RuntimeError only where the resolver has not resolved the channel. A signal that it reads has the
-- expiration of the settings, triggers at
-- most one minute ago and at most thirty minutes ahead, namely at its hour and minute of the day of
-- receipt, carries the text of the event, and is what `adopt` rebuilds from its row after a restart.
pub read_event-Guarantee :
    (env : Env) (event : Message) (received : Time)
    → Guarantee env event received (read_event env event received)
unfolding read_event
read_event-Guarantee env event received =
    let m = event_matches env.lower env.resolver event.chat_id event.chat in
    elim event.out
      as (λ out.
        Guarantee env event received (if out then skipped else read_match env event received m)) [
          | true ↦ tt
          | false ↦ read_match-Guarantee env event received m (event_matches-not_resolved env event)
        ]
