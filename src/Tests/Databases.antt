-- ===== src/Tests/Databases.antt =====
-- Redacted DSNs.
use Prim.Native.Char.{Char, code}
use telegram_olymptrade_sign.Prelude.{◌≡◌, refl, arith, Bool, ◌&&◌, ◌||◌, leb, ◌==◌}
use telegram_olymptrade_sign.Domain.Signal.Chars.{is_space}
use telegram_olymptrade_sign.Database.{
  redact_dsn, url, span, some_of, literal, last_line, match_url, letter, password_at, substitute,
}
use telegram_olymptrade_sign.Database.Redaction.{redact_dsn-url}

-- `\w` on ASCII characters.
abbrev is_word : Char → Bool
is_word c =
    (leb b'0' (code c) && leb (code c) b'9')
    || (leb b'A' (code c) && leb (code c) b'Z')
    || (leb b'a' (code c) && leb (code c) b'z')
    || code c == b'_'

redact_dsn-url_example :
    redact_dsn is_word (url "postgresql" "user" "secret" "db:5432/copier")
    ≡ url "postgresql" "user" "***" "db:5432/copier"
redact_dsn-url_example =
    redact_dsn-url is_word "postgresql" "user" "secret" "db:5432/copier" refl (ground arith) refl
      (ground arith) refl (ground arith) refl (ground arith)

keyword_run :
    redact_dsn is_word "host=db PassWord = secret user=me" ≡ "host=db PassWord = *** user=me"
unfolding redact_dsn match_url span some_of literal last_line letter password_at substitute is_space
keyword_run = refl

-- An @ in the password ends it, and an empty user hides the password from both patterns.
at_sign_run : redact_dsn is_word "postgresql://user:p@ss@db/x" ≡ "postgresql://user:***@ss@db/x"
unfolding redact_dsn match_url span some_of literal last_line letter password_at substitute is_space
at_sign_run = refl

no_user_run : redact_dsn is_word "postgresql://:secret@db/x" ≡ "postgresql://:secret@db/x"
unfolding redact_dsn match_url span some_of literal last_line letter password_at substitute is_space
no_user_run = refl
