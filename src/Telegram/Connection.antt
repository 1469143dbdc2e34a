-- ===== src/Telegram/Connection.antt =====
-- The connection of telegram/client.py, and the handlers that __main__.py registers on it. Whether a call of
-- Telethon raises is an argument; Telethon calls the handlers of an event in the order in which they
-- were registered.
use telegram_olymptrade_sign.Prelude.{
  ℕ, suc, ◌≡◌, refl, ap, ◌∙◌, Bool, true, false, Option, none, some, String, List, [], ◌∷◌, ◌++◌,
  arith, if◌then◌else◌,
}
use telegram_olymptrade_sign.Prelude.Int.{ℤ}
use telegram_olymptrade_sign.Config.{Time}
use telegram_olymptrade_sign.Domain.Signal.{Signal}
use telegram_olymptrade_sign.Domain.Signal.Parser.{FailureReason}
use telegram_olymptrade_sign.Telegram.Intakes.{listen}
use telegram_olymptrade_sign.Telegram.Known.{same_signal_ignored}
use telegram_olymptrade_sign.Telegram.Listener.{
  Message, Env, Intake, failed, signal, read_event, apply_reading, process_message,
}

-- NewMessage and MessageEdited.
pub data EventKind : Type 0 where
  new_message message_edited : EventKind

-- The methods of the listener.
pub data Handler : Type 0 where
  on_new_message on_message_edited : Handler

-- `client` is the Telethon client, by what is registered on it.
pub record Connection : Type 0 where
  pub client : Option (List (EventKind × Handler))
  pub target_chat_id : Option ℤ

pub data Answer (A : Type 0) : Type 0 where
  ok : A → Answer A
  runtime_error : Answer A
  telethon_raised : Answer A

abbrev pub new_connection : Connection
new_connection = record { client = none; target_chat_id = none }

abbrev pub answer : Bool → Answer Unit
answer raises = if raises then telethon_raised else ok tt

-- `connect`: the client is kept also where its `connect` raises.
unfoldable pub connect : Bool → Connection → Answer Unit × Connection
connect raises c = (answer raises, record c { client = some [] })

unfoldable pub get_target_chat_id : Connection → Answer ℤ
get_target_chat_id c = elim c.target_chat_id [ none ↦ runtime_error | some id ↦ ok id ]

unfoldable pub raw_client : Connection → Answer (List (EventKind × Handler))
raw_client c = elim c.client [ none ↦ runtime_error | some registered ↦ ok registered ]

unfoldable pub set_resolved_chat_id : ℤ → Connection → Connection
set_resolved_chat_id chat_id c = record c { target_chat_id = some chat_id }

-- Both events are registered for the handler.
unfoldable pub add_message_handler : Handler → Connection → Answer Unit × Connection
add_message_handler handler c = elim c.client [
  | none ↦ (runtime_error, c)
  | some registered ↦ (
    ok tt,
    record c {
      client = some (registered ++ ((new_message, handler) ∷ (message_edited, handler) ∷ []));
    },
  )
]

unfoldable pub send_to_self : Bool → Connection → Answer Unit
send_to_self raises c = elim c.client [ none ↦ runtime_error | some registered ↦ answer raises ]

-- `close`: an exception of `disconnect` is dropped.
unfoldable pub close : Bool → Connection → Answer Unit × Connection
close raises c = elim c.client [ none ↦ (ok tt, c) | some registered ↦ (ok tt, new_connection) ]

-- The two calls of __main__.py.
unfoldable pub register_handlers : Connection → Answer Unit × Connection
unfolding add_message_handler
register_handlers c =
    let (first, c1) = add_message_handler on_new_message c in
    elim first [
      | ok _ ↦ add_message_handler on_message_edited c1
      | runtime_error ↦ (runtime_error, c1)
      | telethon_raised ↦ (telethon_raised, c1)
    ]

abbrev is_for : EventKind → EventKind → Bool
is_for new_message new_message = true
is_for message_edited message_edited = true
is_for _ _ = false

-- Both handlers are `_process_message`.
unfoldable pub handle : Handler → Env → Message → Time → Intake → Intake
handle on_new_message env event received i = process_message env event received i
handle on_message_edited env event received i = process_message env event received i

-- An event, with what the clock shows to each handler.
unfoldable pub deliver :
    Env → EventKind → Message → (ℕ → Time) → ℕ → List (EventKind × Handler) → Intake → Intake
unfolding handle
deliver env kind event clock n [] i = i
deliver env kind event clock n ((k, handler) ∷ registered) i =
    let mine =
      deliver env kind event clock (suc n) registered (handle handler env event (clock n) i) in
    let not_mine = deliver env kind event clock n registered i in
    if is_for k kind then mine else not_mine

abbrev wired : List (EventKind × Handler)
wired =
    (new_message, on_new_message)
    ∷ (message_edited, on_new_message)
    ∷ (new_message, on_message_edited)
    ∷ (message_edited, on_message_edited)
    ∷ []

register_handlers-wired :
    (c : Connection) → c.client ≡ some [] → (register_handlers c).1.client ≡ some wired
unfolding register_handlers add_message_handler
register_handlers-wired c fresh = ground arith

deliver-wired :
    (env : Env) (kind : EventKind) (event : Message) (clock : ℕ → Time) (i : Intake)
    → deliver env kind event clock 0 wired i
      ≡ process_message env event (clock 1) (process_message env event (clock 0) i)
unfolding deliver
deliver-wired env new_message event clock i = refl
deliver-wired env message_edited event clock i = refl

-- Registered on a new client, the handlers of __main__.py handle each event twice, whether it is new or
-- edited. An event that cannot be parsed is then told to the notifier twice; one that is read as the same
-- signal both times has the effect of being handled once.
pub handled_twice :
    (env : Env) (kind : EventKind) (event : Message) (clock : ℕ → Time) (c : Connection)
    (i : Intake) (registered : List (EventKind × Handler))
    → c.client ≡ some []
    → (register_handlers c).1.client ≡ some registered
    → let j = deliver env kind event clock 0 registered i in
      (j ≡ process_message env event (clock 1) (process_message env event (clock 0) i))
      × ((reason : FailureReason) (text : String)
          → read_event env event (clock 0) ≡ failed reason text
          → read_event env event (clock 1) ≡ failed reason text
          → j.parse_failures ≡ (i.parse_failures ++ ((text, reason) ∷ [])) ++ ((text, reason) ∷ []))
      × ((s1 s2 : Signal)
          → read_event env event (clock 0) ≡ signal s1
          → read_event env event (clock 1) ≡ signal s2
          → s1.signal_id ≡ s2.signal_id
          → j ≡ process_message env event (clock 0) i)
unfolding process_message apply_reading listen
handled_twice env kind event clock c i registered fresh e =
    let same : registered ≡ wired = ground (arith, register_handlers-wired c fresh) in
    let twice =
      ap (λ r. deliver env kind event clock 0 r i) same ∙ deliver-wired env kind event clock i in
    (
      twice,
      (λ reason text r0 r1. rw (twice, process_message, r0, r1) refl),
      λ s1 s2 r0 r1 one.
          twice ∙ same_signal_ignored env event event (clock 0) (clock 1) s1 s2 [] i r0 r1 one,
    )
