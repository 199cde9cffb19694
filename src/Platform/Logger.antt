-- ===== src/Platform/Logger.antt =====
-- internal/platform/logger/logger.go: the level that `Init` reads out of a text, and what the
-- handler that it installs lets through.
pub mod Spelling
use production_ready_url_sho.Common.{ℕ, String, Bool, true, ◌||◌, List, if◌then◌else◌, leb}
use production_ready_url_sho.Platform.Words.{runes, to_lower, trim_space, same}

pub data Level : Type 0 where
  level_debug level_info level_warn level_error : Level

-- `slog.Level` is a number.
abbrev pub number : Level → ℕ
number level_debug = 0
number level_info = 4
number level_warn = 8
number level_error = 12

-- The `switch`, on the text as its runes.
unfoldable pub level_of : List ℕ → Level
unfolding same trim_space
level_of level =
    let word = to_lower (trim_space level) in
    if same word (runes "debug")
    then level_debug
    else if same word (runes "warn") || same word (runes "warning")
    then level_warn
    else if same word (runes "error")
    then level_error
    else level_info

pub record HandlerOptions : Type 0 where
  pub level : Level
  pub add_source : Bool

-- The options of the JSON handler that becomes the default.
unfoldable pub init : String → HandlerOptions
unfolding level_of
init level = record { level = level_of (runes level); add_source = true }

-- Whether a handler writes a record of a level.
abbrev pub enabled : HandlerOptions → Level → Bool
enabled h l = leb (number h.level) (number l)
