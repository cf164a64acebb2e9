-- ===== src/Logging.antt =====
-- logging_config.py: the JSON log lines, and the set-up of the root logger
pub mod Laws
use cisco_ise_mcp.Prelude.{
  Bool, List, Option, [], if◌then◌else◌, none, not, some, ℕ, ◌&&◌, ◌++◌, ◌∷◌,
}
use cisco_ise_mcp.Dict.{Dict, insert, lookup}
use cisco_ise_mcp.Errors.{Result, err, ok, python_error}
use cisco_ise_mcp.Text.{Text, contains, lit, repr, starts_with, upper}
use cisco_ise_mcp.Value.{Value, str}

-- A `logging.LogRecord`: what its methods and the formatter's give, and its `__dict__`.
pub record LogRecord : Type 0 where
  pub time_text : Text
  pub levelname : Text
  pub name : Text
  pub message_text : Text
  pub attributes : Dict Value
  pub exception_text : Option Text

-- `_STD_ATTRS`: the keys of the `__dict__` of an empty record, and three more
abbrev pub std_attrs : List Text
std_attrs =
    lit "name"
    ∷ lit "msg"
    ∷ lit "args"
    ∷ lit "levelname"
    ∷ lit "levelno"
    ∷ lit "pathname"
    ∷ lit "filename"
    ∷ lit "module"
    ∷ lit "exc_info"
    ∷ lit "exc_text"
    ∷ lit "stack_info"
    ∷ lit "lineno"
    ∷ lit "funcName"
    ∷ lit "created"
    ∷ lit "msecs"
    ∷ lit "relativeCreated"
    ∷ lit "thread"
    ∷ lit "threadName"
    ∷ lit "processName"
    ∷ lit "process"
    ∷ lit "message"
    ∷ lit "asctime"
    ∷ lit "taskName"
    ∷ []

-- `k not in _STD_ATTRS and not k.startswith("_")`
unfoldable pub is_extra : Text → Bool
unfolding contains starts_with
is_extra k = not (contains std_attrs k) && not (starts_with k (lit "_"))

abbrev pub base_payload : LogRecord → Dict Value
base_payload r =
    (lit "ts", str r.time_text)
    ∷ (lit "level", str r.levelname)
    ∷ (lit "logger", str r.name)
    ∷ (lit "msg", str r.message_text)
    ∷ []

-- The loop over the attributes.
unfoldable pub merge_extras : Dict Value → Dict Value → Dict Value
unfolding insert
merge_extras payload [] = payload
merge_extras payload ((k, v) ∷ attributes) =
    merge_extras (if is_extra k then insert k v payload else payload) attributes

abbrev pub with_exception : Option Text → Dict Value → Dict Value
with_exception none payload = payload
with_exception (some e) payload = insert (lit "exc") (str e) payload

-- `JsonFormatter.format(record)`, up to `json.dumps` of the payload
unfoldable pub format_payload : LogRecord → Dict Value
unfolding merge_extras
format_payload r = with_exception r.exception_text (merge_extras (base_payload r) r.attributes)

-- What a handler writes with.
pub data Handler : Type 0 where
  json_to_stdout : Handler
  other_handler : Text → Handler

-- The root logger, with its level as Python numbers them.
pub record RootLogger : Type 0 where
  pub handlers : List Handler
  pub level : ℕ

abbrev level_numbers : Dict ℕ
level_numbers =
    (lit "CRITICAL", 50)
    ∷ (lit "FATAL", 50)
    ∷ (lit "ERROR", 40)
    ∷ (lit "WARN", 30)
    ∷ (lit "WARNING", 30)
    ∷ (lit "INFO", 20)
    ∷ (lit "DEBUG", 10)
    ∷ (lit "NOTSET", 0)
    ∷ []

-- The number of a level by its name in any case, which `setLevel` looks up.
unfoldable pub level_of : Text → Option ℕ
unfolding lookup upper
level_of level = lookup (upper level) level_numbers

abbrev pub set_level : Text → Option ℕ → RootLogger → Result (Unit {0}) × RootLogger
set_level level none root =
    (err (python_error (lit "ValueError") (lit "Unknown level: " ++ repr (upper level))), root)
set_level level (some n) root = (ok tt, record root { level = n })

-- `configure_logging(level)`: the handlers are replaced before the level is looked up.
unfoldable pub configure_logging : Text → RootLogger → Result (Unit {0}) × RootLogger
configure_logging level root =
    set_level level (level_of level) (record root { handlers = json_to_stdout ∷ [] })
