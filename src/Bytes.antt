-- ===== src/Bytes.antt =====
-- The object representation of an `unsigned int`: four bytes, least significant first, as on the
-- little-endian hosts that the program runs on. A `char` is its bit pattern, below 256.
use distributed_algorithms_p.Prelude.{ℕ, ◌+◌, ◌*◌, ◌/◌, ◌%◌, ◌<◌, List, [], ◌∷◌}

-- `std::copy(ptr, ptr + sizeof(unsigned int), buffer)`
abbrev pub to_bytes : ℕ → List ℕ
to_bytes n = n % 256 ∷ n / 256 % 256 ∷ n / 65_536 % 256 ∷ n / 16_777_216 % 256 ∷ []

-- The number whose representation the four bytes are.
abbrev pub from_bytes : ℕ → ℕ → ℕ → ℕ → ℕ
from_bytes a b c d = a + 256 * b + 65_536 * c + 16_777_216 * d

abbrev pub IsByte : ℕ → Type 0
IsByte b = b < 256
