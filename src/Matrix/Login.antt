-- ===== src/Matrix/Login.antt =====
-- matrix/backend.go: the login with a password, and the session that is kept for the next start.
use opencrow.Prelude.{Bool, true, false, Option, none, some, List, [], ◌∷◌, ◌++◌, if◌then◌else◌}
use opencrow.Prelude.Text.{Text, codes, text_eq, is_empty}
use opencrow.Prelude.Fallible.{Fallible, value, error, Done}

pub record Config : Type 0 where
  pub user_id : Text
  pub password : Text
  pub device_id : Text

pub record StoredSession : Type 0 where
  pub access_token : Text
  pub device_id : Text

-- The credentials of `mautrix.Client`.
pub record Client : Type 0 where
  pub access_token : Text
  pub device_id : Text

-- `mautrix.ReqLogin`, less its constants.
pub record LoginRequest : Type 0 where
  pub user : Text
  pub password : Text
  pub device_id : Text

-- The homeserver, the file system and encoding/json.
pub record World : Type 0 where
  pub unmarshal : Text → Option StoredSession
  pub marshal : StoredSession → Fallible Text
  pub whoami : Text → Fallible Text  -- the user of a token
  pub login : LoginRequest → Client → Fallible StoredSession × Client  -- with `StoreCredentials`
  pub made_dir : Done
  pub written : Done

pub record State : Type 0 where
  pub client : Client
  pub session_file : Option Text
  pub logins : List LoginRequest

abbrev pub with_token : StoredSession → Client → Client
with_token stored c = record {
  access_token = stored.access_token;
  device_id = if is_empty stored.device_id then c.device_id else stored.device_id;
}

abbrev pub recognised : Config → Fallible Text → State → Bool × State
recognised cfg (error e) s = (false, record s { client = record s.client { access_token = [] } })
recognised cfg (value user) s =
    if text_eq user cfg.user_id
    then (true, s)
    else (false, record s { client = record s.client { access_token = [] } })

abbrev pub with_stored : World → Config → Option StoredSession → State → Bool × State
with_stored w cfg none s = (false, s)
with_stored w cfg (some stored) s =
    if is_empty stored.access_token
    then (false, s)
    else recognised cfg (w.whoami stored.access_token)
        (record s { client = with_token stored s.client })

abbrev pub with_file : World → Config → Option Text → State → Bool × State
with_file w cfg none s = (false, s)
with_file w cfg (some contents) s = with_stored w cfg (w.unmarshal contents) s

-- Whether the session of an earlier start is good, and its token is used then.
unfoldable pub reuse_session : World → Config → State → Bool × State
reuse_session w cfg s = with_file w cfg s.session_file s

abbrev pub login_request : Config → LoginRequest
login_request cfg = record {
  user = cfg.user_id;
  password = cfg.password;
  device_id = if is_empty cfg.device_id then codes "opencrow" else cfg.device_id;
}

-- The results of `MkdirAll` and of `WriteFile`.
abbrev pub stored_as : Text → Done → Done → State → Done × State
stored_as contents (error e) _ s = (error e, s)
stored_as contents (value _) (error e) s = (error (codes "persisting matrix session: " ++ e), s)
stored_as contents (value _) (value _) s = (value tt, record s { session_file = some contents })

abbrev pub persisted : World → Fallible Text → State → Done × State
persisted w (error e) s = (error e, s)
persisted w (value contents) s = stored_as contents w.made_dir w.written s

abbrev pub logged_in : World → Fallible StoredSession → State → Done × State
logged_in w (error e) s = (error e, s)
logged_in w (value session) s = persisted w (w.marshal session) s

unfoldable pub password_login : World → Config → State → Done × State
password_login w cfg s =
    let (answer, c) = w.login (login_request cfg) s.client in
    logged_in w answer (record s { client = c; logins = s.logins ++ login_request cfg ∷ [] })

unfoldable pub or_login : World → Config → Bool × State → Done × State
unfolding password_login
or_login w cfg (true, s) = (value tt, s)
or_login w cfg (false, s) = password_login w cfg s

unfoldable pub ensure_password_login : World → Config → State → Done × State
unfolding reuse_session or_login
ensure_password_login w cfg s = or_login w cfg (reuse_session w cfg s)
