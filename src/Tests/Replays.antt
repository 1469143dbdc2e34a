-- ===== src/Tests/Replays.antt =====
-- The replay of a sample entry.
use telegram_olymptrade_sign.Prelude.{
  ◌≡◌, refl, none, some, String, [], ◌∷◌, arith, false, str_eq, if◌then◌else◌,
}
use telegram_olymptrade_sign.Prelude.Int.{pos}
use telegram_olymptrade_sign.Config.{seconds}
use telegram_olymptrade_sign.Domain.Signal.{down}
use telegram_olymptrade_sign.Domain.Signal.Chars.{is_space}
use telegram_olymptrade_sign.Domain.Signal.Parser.{parsed}
use telegram_olymptrade_sign.Domain.Signal.Message.{said}
use telegram_olymptrade_sign.Telegram.Listener.{is_blank, read_event, read_parsed}
use telegram_olymptrade_sign.Replay.{ReplayEntry, load_fixture, injected}
use telegram_olymptrade_sign.Replay.Delivery.{injected_read}
use telegram_olymptrade_sign.Tests.Listener.{listening}
use telegram_olymptrade_sign.Tests.Parser.{
  eur, jpy, sample_text, sample_more, sample_quiet, sample_clean,
}

abbrev sample_entry : ReplayEntry
sample_entry = record {
  id = "e1";
  inject_at_offset_seconds = pos 5_000_000;
  raw_text = sample_text;
  expected_outcome = "win_at_initial";
  notes = "";
}

-- The second item has no outcome, and the third an offset that is no number.
sample_fixture_run :
    load_fixture {J = String}
      (λ v. if str_eq v "5" then some (pos 5_000_000) else none)
      (λ v. v)
      ((("id", "e1")
          ∷ ("inject_at_offset_seconds", "5")
          ∷ ("raw_text", sample_text)
          ∷ ("expected_outcome", "win_at_initial")
          ∷ [])
        ∷ (("id", "e2") ∷ ("inject_at_offset_seconds", "5") ∷ ("raw_text", "x") ∷ [])
        ∷ (("id", "e3")
            ∷ ("inject_at_offset_seconds", "soon")
            ∷ ("raw_text", "x")
            ∷ ("expected_outcome", "full_loss")
            ∷ [])
        ∷ [])
    ≡ sample_entry ∷ []
unfolding load_fixture
sample_fixture_run = refl

sample_not_blank : is_blank sample_text ≡ false
unfolding is_blank is_space
sample_not_blank = refl

injected_read_example :
    read_event listening (injected (pos 2) sample_entry (seconds 39_000)) (seconds 39_000)
    ≡ read_parsed listening
        (injected (pos 2) sample_entry (seconds 39_000))
        (seconds 39_000)
        (parsed (said 5 eur jpy 10 20 down))
injected_read_example =
    injected_read listening (pos 2) sample_entry (seconds 39_000) (seconds 39_000) 5 [] eur jpy 10
      20 down sample_more refl sample_not_blank sample_clean (omega arith, tt) (omega arith)
      (omega arith) (omega arith) sample_quiet refl
