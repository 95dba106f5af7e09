-- ===== src/Mcp/Rotator/Tests.antt =====
-- Runs of the log rotation on small files.
use pty_mcp.Base.{ℕ, zero, suc, refl, true, none, some, List, [], ◌∷◌, length, take, arith}
use pty_mcp.Mcp.Rotator.{Files, LogRotator, write}
use pty_mcp.Mcp.Rotator.Shift.{IsPacked}
use pty_mcp.Mcp.Rotator.Keeps.{IsLogged, exceeds, write-IsLogged}

-- a log of three bytes with one backup
abbrev two_files : Files
two_files zero = some (1 ∷ 2 ∷ 3 ∷ [])
two_files (suc zero) = some (9 ∷ [])
two_files (suc (suc i)) = none

abbrev small_log : LogRotator
small_log = record { max_size = 4; max_files = 2; is_open = true; size = 3 }

two_files-IsPacked : IsPacked 2 two_files
two_files-IsPacked zero low gone = ground arith
two_files-IsPacked (suc i) low gone = refl

abbrev two_bytes : List ℕ
two_bytes = 7 ∷ 8 ∷ []

write-IsLogged_example :
    IsLogged
      (exceeds small_log (length two_bytes))
      true
      (take 2 two_bytes)
      small_log
      two_files
      (write true 2 two_bytes (small_log, two_files))
write-IsLogged_example =
    write-IsLogged true 2 two_bytes small_log two_files refl (omega arith) two_files-IsPacked
