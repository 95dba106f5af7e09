-- ===== src/Mcp/Rotator.antt =====
-- internal/mcp/tools.go: type `logRotator`. The directory is a function: file 0 is the log, file i its i-th
-- backup. A rename replaces its target, and fails only if its source is not there. Whether the new log
-- can be opened, and how many bytes a write gets out, are parameters.
pub mod Shift
pub mod Keeps
mod Tests
use pty_mcp.Base.{
  ℕ, zero, suc, ◌+◌, ◌*◌, String, Bool, true, false, ◌&&◌, Option, none, some, List, [], ◌∷◌, ◌++◌,
  length, take, ltb, ◌==◌, if◌then◌else◌,
}
use pty_mcp.Base.Int.{ℤ, is_nonpos, pos_part}

abbrev pub Files : Type 0
Files = ℕ → Option (List ℕ)

pub record LogRotator : Type 0 where
  pub max_size : ℕ
  pub max_files : ℕ
  pub is_open : Bool
  pub size : ℕ

abbrev pub content : Option (List ℕ) → List ℕ
content none = []
content (some bytes) = bytes

abbrev pub put : Files → ℕ → Option (List ℕ) → Files
put files i c j = if j == i then c else files j

abbrev moved : Files → ℕ → ℕ → Option (List ℕ) → Files
moved files i j none = files
moved files i j (some c) = put (put files i none) j (some c)

-- `os.Rename`
unfoldable pub rename : Files → ℕ → ℕ → Files
rename files i j = moved files i j (files i)

-- `for i := r.maxFiles; i > 1; i--`
unfoldable pub shift : ℕ → Files → Files
unfolding rename
shift zero files = files
shift (suc zero) files = files
shift (suc (suc n)) files = shift (suc n) (rename files (suc n) (suc (suc n)))

-- opening for append, or anew: a file that is not there is created
abbrev pub create : Files → Files
create files = put files 0 (some (content (files 0)))

-- `newLogRotator`, for a file that can be opened; a negative size means no rotation
pub new_log_rotator : Files → ℤ → ℤ → LogRotator × Files
new_log_rotator files max_size_mb max_files = (
  record {
    max_size = pos_part max_size_mb * 1024 * 1024;
    max_files = if is_nonpos max_files then 3 else pos_part max_files;
    is_open = true;
    size = length (content (files 0));
  },
  create files,
)

-- `rotate`; `opens`: whether the new log can be opened
unfoldable pub rotate : Bool → LogRotator × Files → LogRotator × Files
unfolding shift rename
rotate opens (r, files) =
    let renamed = rename (shift r.max_files files) 0 1 in
    if opens
    then (record r { is_open = true; size = 0 }, create renamed)
    else (record r { is_open = false }, renamed)

-- `r.file.Write(p)`; `n` bytes of it are written
abbrev append_bytes : ℕ → List ℕ → LogRotator × Files → LogRotator × Files × Option ℕ
append_bytes n p (r, files) =
    let out = take n p in
    if r.is_open
    then (
      record r { size = r.size + length out },
      put files 0 (some (content (files 0) ++ out)),
      some (length out),
    )
    else (r, files, none)

-- `Write`: none is its error "log file closed"
unfoldable pub write : Bool → ℕ → List ℕ → LogRotator × Files → LogRotator × Files × Option ℕ
unfolding rotate
write opens n p (r, files) =
    let rotated = rotate opens (r, files) in
    append_bytes n p
      (if ltb 0 r.max_size && ltb r.max_size (r.size + length p) then rotated else (r, files))

-- `Close`
pub close : LogRotator → LogRotator
close r = record r { is_open = false }
