-- ===== src/Core/Logger.antt =====
-- libs/core/logger.h and logger.cc: the log level, and which lines are printed.
use Prim.Native.String.{String}
use dmx_enttec_node.Prelude.{
  ℕ, ◌%◌, Bool, true, false, ◌==◌, leb, ◌&&◌, if◌then◌else◌, Result, ok, throw, unknown_log_level,
}

abbrev pub ll_debug : ℕ
ll_debug = 0

abbrev pub ll_info : ℕ
ll_info = 1

abbrev pub ll_warn : ℕ
ll_warn = 2

abbrev pub ll_error : ℕ
ll_error = 3

-- GLOBAL_LOG_LEVEL is a `uint8_t`: the value after a call, which gives an `int` that is not
-- negative.
unfoldable pub set_global_log_level : ℕ → ℕ
set_global_log_level log_level = log_level % 256

unfoldable pub log_level_to_string : ℕ → Result String
log_level_to_string log_level =
    if log_level == ll_debug
    then ok "Debug"
    else if log_level == ll_info
    then ok "Info"
    else if log_level == ll_warn
    then ok "Warn"
    else if log_level == ll_error
    then ok "Error"
    else throw unknown_log_level

-- Whether `LOG(level, …)` prints, at a global level
unfoldable pub logs : ℕ → ℕ → Bool
logs level global =
    if level == ll_debug && global == ll_debug
    then true
    else if level == ll_info && leb global ll_info
    then true
    else if level == ll_warn && leb global ll_warn
    then true
    else if level == ll_error && leb global ll_error
    then true
    else false
