-- ===== src/Preflight.antt =====
-- tools/mt5_preflight.py over how the calls of the terminal end; `int_of` is `int` on a text (`none` is the ValueError). What is
-- printed is left out.
pub mod Passing
use telegram_olymptrade_sign.Prelude.{
  ℕ, Bool, true, false, ◌||◌, Option, none, some, String, str_eq, if◌then◌else◌,
}
use telegram_olymptrade_sign.Prelude.Int.{ℤ}

-- How a call ends: it returns, raises an Exception, or raises something else, such as KeyboardInterrupt.
pub data Got (A : Type 0) : Type 0 where
  got : A → Got A
  raised : Got A
  interrupted : Got A

infixl 10 ◌>>=◌
abbrev pub ◌>>=◌ : {A B : Type 0} → Got A → (A → Got B) → Got B
got a >>= f = f a
raised >>= f = raised
interrupted >>= f = interrupted

-- The variables of the environment, where "" is one that is missing.
pub record Variables : Type 0 where
  pub login : String
  pub password : String
  pub server : String

-- `create` is the call of MetaTrader5, `login_info` and `symbols_get` end with the use of what they give, and
-- `account_info` is true where there is an account, with the printing of its fields in `account_line`.
pub record Terminal : Type 0 where
  pub create : Got Unit
  pub initialize : ℤ → Got Bool
  pub last_error : Got Unit
  pub login_info : Got Unit
  pub account_info : Got Bool
  pub account_line : Got Unit
  pub symbols_get : Got Unit
  pub shutdown : Got Unit

-- The exit code, or an exception that nothing takes; and whether `shutdown` was called.
pub record Verdict : Type 0 where
  pub code : Option ℕ
  pub shut_down : Bool

-- `int(login)`
abbrev pub int_or_raise : Option ℤ → Got ℤ
int_or_raise none = raised
int_or_raise (some n) = got n

-- What follows the account.
unfoldable pub after_account : Terminal → Bool → Got ℕ
after_account t false = got 1
after_account t true = do _ ← t.account_line; _ ← t.symbols_get; got 0

-- What follows `initialize`.
unfoldable pub after_initialize : Terminal → Bool → Got ℕ
unfolding after_account
after_initialize t false = do _ ← t.last_error; got 1
after_initialize t true = do _ ← t.login_info; there ← t.account_info; after_account t there

-- The body of the `try`.
unfoldable pub checks : Option ℤ → Terminal → Got ℕ
unfolding after_initialize
checks login t = do n ← int_or_raise login; ok ← t.initialize n; after_initialize t ok

-- `except Exception`
abbrev pub code_of : Got ℕ → Option ℕ
code_of (got n) = some n
code_of raised = some 1
code_of interrupted = none

-- `finally`: an Exception of `shutdown` is dropped.
abbrev pub shut : Got Unit → Option ℕ → Verdict
shut interrupted code = record { code = none; shut_down = true }
shut raised code = record { code = code; shut_down = true }
shut (got _) code = record { code = code; shut_down = true }

-- The instance is made before the `try`.
abbrev pub after_create : Got Unit → Verdict → Verdict
after_create (got _) v = v
after_create raised v = record { code = none; shut_down = false }
after_create interrupted v = record { code = none; shut_down = false }

abbrev pub is_missing : Variables → Bool
is_missing v = str_eq v.login "" || str_eq v.password "" || str_eq v.server ""

unfoldable pub run_preflight : (String → Option ℤ) → Variables → Terminal → Verdict
unfolding checks
run_preflight int_of v t =
    if is_missing v
    then record { code = some 1; shut_down = false }
    else after_create t.create (shut t.shutdown (code_of (checks (int_of v.login) t)))
