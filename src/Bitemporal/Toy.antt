-- ===== src/Bitemporal/Toy.antt =====
-- A clock of numbers for the tests.
use ahl_core.Prelude.{ℕ, [], ◌∷◌, Str, codes, leb}
use ahl_core.Error.{Result, ok, err}
use ahl_core.Bitemporal.{Clock}

-- An instant is written as one code.
abbrev pub read : Str → Result Str ℕ
read (n ∷ []) = ok n
read _ = err (codes "no instant")

abbrev pub clock : Clock
clock = record { Instant = ℕ; le = leb; parse = read }
