-- ===== src/Logger/Tests.antt =====
-- The logger on an empty disk.
use os_from_zero.Filesystem.Init.{blank_file, file_pool}
use os_from_zero.Filesystem.Store.{AllSized-replicate, blank_file-IsSized}
use os_from_zero.Base.{ℕ, ◌≡◌, refl, true, Option, some, List, [], ◌∷◌, ◌++◌, map, arith, codes}
use os_from_zero.Filesystem.{FileSystem}
use os_from_zero.Logger.{Logger, one, shown}
use os_from_zero.Logger.Lines.{logger_log, module_text, printed_header}
use os_from_zero.Logger.Room.{log_text}
use os_from_zero.Logger.Append.{Appended, logger_log-appends}

abbrev logger : Logger
logger = record {
  current_log_level = 1;
  log_file_initialized = true;
  fs = record { files = file_pool; current_time = 0; initialized = true };
}

-- "up" of the module "net", as a warning.
abbrev net : Option (List ℕ)
net = some (codes "net")

logger_log-appends_example :
    (fs' : FileSystem) × (logger_log logger 2 net (codes "up") []
      ≡ some (
        printed_header 2 (module_text net) ++ (map one (codes "up") ++ (shown (codes "\n") ∷ [])),
        record logger { fs = fs' },
      ))
    × Appended logger.fs fs' (log_text 2 (module_text net) (codes "up"))
logger_log-appends_example =
    logger_log-appends logger 2 net (codes "up") [] (omega arith) refl refl
      (AllSized-replicate 16 blank_file blank_file-IsSized) (omega arith)
      (ground arith, (ground arith, tt))

abbrev width : ℕ
width = 640
