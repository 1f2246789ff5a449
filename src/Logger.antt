-- ===== src/Logger.antt =====
-- The event log: src/src/src/logger.cpp and src/src/include/logger.hpp, with the two kinds of line that
-- `Broadcast::LogSend` and `Broadcast::LogDeliver` write to it.
pub mod Lines
use distributed_algorithms_p.Prelude.{ℕ, List, [], ◌∷◌, ◌++◌}

pub data Line : Type 0 where
  broadcast : (seq : ℕ) → Line  -- "b seq"
  deliver : (author seq : ℕ) → Line  -- "d author seq"

-- `logger << text`: the file grows at its end.
abbrev pub write : List Line → Line → List Line
write lines l = lines ++ l ∷ []
