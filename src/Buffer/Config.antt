-- ===== src/Buffer/Config.antt =====
-- internal/buffer/config.go: the size of a session's buffer.
use pty_mcp.Base.{
  ap, ◌∙◌, ℕ, ◌*◌, ◌≤◌, ◌≡◌, Option, none, some, List, [], ◌∷◌, arith, if◌then◌else◌,
}
use pty_mcp.Base.Int.{ℤ, pos, negsuc, is_below, exceeds, pos_part}
use pty_mcp.Text.{atoi}

abbrev default_buffer_size : ℕ
default_buffer_size = 1024 * 1024

abbrev min_buffer_size : ℕ
min_buffer_size = 64 * 1024

abbrev max_buffer_size : ℕ
max_buffer_size = 32 * 1024 * 1024

-- the two clamps, on the number that was read
clamp_size : ℤ → ℕ
clamp_size size =
    if is_below size min_buffer_size
    then min_buffer_size
    else if exceeds size max_buffer_size
    then max_buffer_size
    else pos_part size

-- the size for what `Atoi` gave
size_of : Option ℤ → ℕ
unfolding clamp_size
size_of none = default_buffer_size
size_of (some size) = clamp_size size

-- The argument is the value of the environment variable, empty if it is not set.
pub buffer_size_from_env : List ℕ → ℕ
unfolding size_of
buffer_size_from_env [] = default_buffer_size
buffer_size_from_env (c ∷ val) = size_of (atoi (c ∷ val))

clamp_size_bounds :
    (size : ℤ) → (min_buffer_size ≤ clamp_size size) × (clamp_size size ≤ max_buffer_size)
unfolding clamp_size
clamp_size_bounds (pos n) = ground arith
clamp_size_bounds (negsuc n) = omega arith

clamp_size-eq : (n : ℕ) → min_buffer_size ≤ n → n ≤ max_buffer_size → clamp_size (pos n) ≡ n
unfolding clamp_size
clamp_size-eq n lo hi = ground arith

size_of_bounds : (o : Option ℤ) → (min_buffer_size ≤ size_of o) × (size_of o ≤ max_buffer_size)
unfolding size_of
size_of_bounds none = omega arith
size_of_bounds (some size) = clamp_size_bounds size

-- If the environment variable is not empty, the buffer size lies between the two limits, and a
-- number within the limits is taken as it is.
pub buffer_size_from_env_lem :
    (c : ℕ) (val : List ℕ)
    → (min_buffer_size ≤ buffer_size_from_env (c ∷ val))
      × (buffer_size_from_env (c ∷ val) ≤ max_buffer_size)
      × ((n : ℕ)
          → atoi (c ∷ val) ≡ some (pos n)
          → min_buffer_size ≤ n
          → n ≤ max_buffer_size
          → buffer_size_from_env (c ∷ val) ≡ n)
unfolding buffer_size_from_env
buffer_size_from_env_lem c val = (
  (size_of_bounds (atoi (c ∷ val))).0,
  (size_of_bounds (atoi (c ∷ val))).1,
  λ n p lo hi. ap size_of p ∙ clamp_size-eq n lo hi,
)
