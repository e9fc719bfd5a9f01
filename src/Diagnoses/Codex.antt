-- ===== src/Diagnoses/Codex.antt =====
-- A turn of Codex: ports/codex.py. The schema of the output and the events of a turn are left out,
-- since no caller reads them.
use autonomous_development.Prelude.{
  ℕ, String, List, Option, none, some, Bool, false, not, ltb, is_blank, starts_with, ◌==◌,
  string_eq,
}
use autonomous_development.Prelude.Raise.{Result, ok, raise_if, value_error, ◌>>◌}
use autonomous_development.Prelude.Action.{Action}

pub data CodexSandbox : Type 0 where
  read_only workspace_write : CodexSandbox

pub record CodexTurnRequest : Type 0 where
  pub prompt : String
  pub cwd : String
  pub sandbox : CodexSandbox
  pub thread_id : Option String
  pub resume_key : Option String
  pub model : Option String
  pub timeout_seconds : ℕ

-- `Path.is_absolute` on POSIX
abbrev pub is_absolute : String → Bool
is_absolute path = starts_with path "/"

abbrev pub is_blank_key : Option String → Bool
is_blank_key none = false
is_blank_key (some key) = is_blank key

unfoldable pub turn_post_init : CodexTurnRequest → Result CodexTurnRequest
turn_post_init r = do
  raise_if (is_blank r.prompt) value_error
  raise_if (not (is_absolute r.cwd)) value_error
  raise_if (ltb r.timeout_seconds 1) value_error
  raise_if (is_blank_key r.resume_key) value_error
  ok r

pub record CodexTurnResult : Type 0 where
  pub thread_id : String
  pub turn_id : String
  pub status : String
  pub agent_messages : List String

unfoldable pub completed : CodexTurnResult → Bool
completed r = r.status == "completed"

pub record CodexProvider (W : Type 0) : Type 0 where
  pub run_turn : CodexTurnRequest → Action W CodexTurnResult
