-- ===== src/Recovery/Order.antt =====
-- agent/recovery.py: both stores restore the same snapshot.
use codex_py.Base.{nat_eq, string_eq, ℕ}
use codex_py.Recovery.Mysql.{Row}
use codex_py.Recovery.{RecoveryAttempt}
use codex_py.Recovery.Memory
use codex_py.Recovery.Mysql

abbrev version_of : RecoveryAttempt → ℕ
version_of a = a.version

abbrev version_of_row : Row → ℕ
version_of_row r = r.common_version
