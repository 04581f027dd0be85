-- ===== src/Rage/Clone/Rec.antt =====
-- The record tags of the clone streams, `rec` in crates/baston-protocol/src/rage/clone.rs.
use baston.Prelude.{ℕ}

abbrev pub create : ℕ
create = 1

abbrev pub sync : ℕ
sync = 2

abbrev pub remove : ℕ
remove = 3

abbrev pub takeover : ℕ
takeover = 4

abbrev pub timestamp : ℕ
timestamp = 5

abbrev pub index : ℕ
index = 6

abbrev pub end : ℕ
end = 7
