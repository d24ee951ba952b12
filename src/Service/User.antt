-- ===== src/Service/User.antt =====
-- internal/service/user_service.go
use hermet.Base.{ℕ, String, wrap, Exec, check, fail, return, ◌>>=◌}
use hermet.Domain
use hermet.Domain.{user_status_active}
use hermet.Repo.Repos.{BizUserRepo}

-- `golang.org/x/crypto/bcrypt`: a hash, salted by chance, and the test of a text against a hash.
pub record Bcrypt (S : Type 0) : Type 0 where
  pub generate : String → Exec S String
  pub compare : String → String → Exec S (Unit {0})

abbrev pub initial_passwd : String
initial_passwd = "hermet@2026"

pub record UserService (S : Type 0) : Type 0 where
  pub add_user : Domain.BizUser → Exec S (Unit {0})

module _ {S : Type 0} (biz_user_repo : BizUserRepo S) (bcrypt : Bcrypt S) (now : Exec S ℕ) where
  -- The user with the password and the fields that the service sets.
  unfoldable pub prepared : Domain.BizUser → String → ℕ → Domain.BizUser
  prepared user passwd at = record user {
    passwd = passwd;
    user_status = user_status_active;
    info_ver = 1;
    created_at = at;
    updated_at = at;
  }

  unfoldable pub add_user : Domain.BizUser → Exec S (Unit {0})
  add_user user =
      check (bcrypt.generate initial_passwd) (λ e. fail (wrap "failed to generate password: %w" e))
        (λ passwd. do at ← now; saved ← biz_user_repo.save (prepared user passwd at); return tt)

  unfoldable pub default_user_service : UserService S
  default_user_service = record { add_user = add_user }
