-- ===== src/Base/Errors.antt =====
-- Go's errors: the sentinel values of internal/errs/error.go and internal/pkg/xmq/types.go, those
-- of the third-party packages that the program compares with, and errors that wrap others.
use Prim.Native.Nat.{ℕ}
use Prim.Native.String.{String}
use mathlib.Core.Bool.{Bool, false, ◌||◌}
use mathlib.Core.List.{List}
use hermet.Base.Tests.{◌==◌}

-- The values that `errors.Is` is asked about.
pub data Sentinel : Type 0 where
  unauthorized invalid_param invalid_user invalid_account_type record_not_found : Sentinel
  consumer_closed : Sentinel
  gorm_record_not_found redis_nil closed_pipe eof canceled server_closed : Sentinel

-- A formatted error keeps its format and its arguments: no code of the program takes a text apart.
pub data Error : Type 0 where
  sentinel : Sentinel → Error
  errorf : String → List String → Error
  wrap : String → Error → Error
  both : Error → Error → Error

abbrev number : Sentinel → ℕ
number unauthorized = 0
number invalid_param = 1
number invalid_user = 2
number invalid_account_type = 3
number record_not_found = 4
number consumer_closed = 5
number gorm_record_not_found = 6
number redis_nil = 7
number closed_pipe = 8
number eof = 9
number canceled = 10
number server_closed = 11

-- `errors.Is(err, target)`
abbrev pub is : Error → Sentinel → Bool
is (sentinel s) t = number s == number t
is (errorf f args) t = false
is (wrap f e) t = is e t
is (both d e) t = is d t || is e t
