-- ===== src/Session/Leave.antt =====
-- web/app.js, the handlers that leave the page for the sign-in (`login`, `logout`, `register` and
-- `forgot`), and `changePass`.
use shortq.Prelude.{String, codes}
use shortq.State.Monad.{M, modify}
use shortq.Api.{show_msg}

abbrev leave_for : String → M (Unit {0})
leave_for url = modify λ s. record s { href = codes url }

-- `login`
unfoldable pub login : M (Unit {0})
login = leave_for "/auth/microsoft/login"

-- `logout`
unfoldable pub logout : M (Unit {0})
logout = leave_for "/auth/logout"

-- `register` and `forgot`
unfoldable pub register : M (Unit {0})
unfolding login
register = login

unfoldable pub forgot : M (Unit {0})
unfolding login
forgot = login

-- `changePass`
unfoldable pub change_pass : M (Unit {0})
change_pass = show_msg (codes "Password auth disabled. Use Microsoft SSO.") "error"
