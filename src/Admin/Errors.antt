-- ===== src/Admin/Errors.antt =====
-- api/src/tabayyun/services/admin/errors.py
use tabayyun.Prelude.{ℕ, String, Tx}
use tabayyun.Db.{Db}

pub data AdminError : Type 0 where
  not_found forbidden : AdminError
  conflict invalid : (code : String) → AdminError

-- The HTTP status and the `detail` that `create_app` answers.
unfoldable pub status : AdminError → ℕ
status not_found = 404
status forbidden = 403
status (conflict code) = 409
status (invalid code) = 422

unfoldable pub code : AdminError → String
code not_found = "not found"
code forbidden = "forbidden"
code (conflict c) = c
code (invalid c) = c

-- A change that may be refused, and then leaves no trace.
abbrev pub Change : Type 0 → Type 0
Change A = Tx AdminError Db A
