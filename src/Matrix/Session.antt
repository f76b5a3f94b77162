-- ===== src/Matrix/Session.antt =====
-- A restart after `ensurePasswordLogin` of matrix/backend.go.
use opencrow.Prelude.{
  ◌≡◌, refl, sym, ap, ◌∙◌, subst, inl, inr, Bool, true, false, if_keeps, if◌then◌else◌, Option,
  none, some, [], ◌∷◌, ◌++◌,
}
use opencrow.Prelude.Text.{Text, text_eq, text_eq_refl, is_empty}
use opencrow.Prelude.Fallible.{Fallible, value, error, Done, Fallible-cases}
use opencrow.Matrix.Login.{
  Config, LoginRequest, StoredSession, Client, World, State, with_token, recognised, with_stored,
  with_file, reuse_session, login_request, stored_as, persisted, logged_in, password_login,
  or_login, ensure_password_login,
}

-- The next start, with a client like that of this one.
abbrev pub restarted : Client → State → State
restarted c s = record s { client = c }

-- What became of the session file: it is as it was, or a login gave it its content.
data Origin (w : World) (cfg : Config) (s : State) : Done × State → Type 0 where
  reused : (s' : State) → reuse_session w cfg s ≡ (true, s') → Origin w cfg s (value tt, s')
  new :
      (session : StoredSession) (contents : Text) (s' : State)
      → (w.login (login_request cfg) (reuse_session w cfg s).1.client).0 ≡ value session
      → w.marshal session ≡ value contents
      → s'.session_file ≡ some contents
      → s'.client ≡ (w.login (login_request cfg) (reuse_session w cfg s).1.client).1
      → Origin w cfg s (value tt, s')
  failed : (e : Text) (s' : State) → Origin w cfg s (error e, s')

stored_as-Origin :
    (w : World) (cfg : Config) (s s' : State) (session : StoredSession) (contents : Text)
    (made written : Done)
    → (w.login (login_request cfg) (reuse_session w cfg s).1.client).0 ≡ value session
    → w.marshal session ≡ value contents
    → s'.client ≡ (w.login (login_request cfg) (reuse_session w cfg s).1.client).1
    → Origin w cfg s (stored_as contents made written s')
stored_as-Origin w cfg s s' session contents (error e) written eq m c = failed e s'
stored_as-Origin w cfg s s' session contents (value _) (error e) eq m c = failed _ s'
stored_as-Origin w cfg s s' session contents (value _) (value _) eq m c =
    new session contents (record s' { session_file = some contents }) eq m refl c

logged_in-Origin :
    (w : World) (cfg : Config) (s s' : State) (answer : Fallible StoredSession)
    → (w.login (login_request cfg) (reuse_session w cfg s).1.client).0 ≡ answer
    → s'.client ≡ (w.login (login_request cfg) (reuse_session w cfg s).1.client).1
    → Origin w cfg s (logged_in w answer s')
logged_in-Origin w cfg s s' (error e) eq c = failed e s'
logged_in-Origin w cfg s s' (value session) eq c = elim (Fallible-cases (w.marshal session)) [
  | inl (contents, m) ↦
      subst (λ r. Origin w cfg s (persisted w r s')) (sym m)
        (stored_as-Origin w cfg s s' session contents w.made_dir w.written eq m c)
  | inr (e, m) ↦ subst (λ r. Origin w cfg s (persisted w r s')) (sym m) (failed e s')
]

ensure_password_login-Origin :
    (w : World) (cfg : Config) (s : State) → Origin w cfg s (ensure_password_login w cfg s)
unfolding ensure_password_login or_login password_login
ensure_password_login-Origin w cfg s = either (reuse_session w cfg s) refl
  where
    either : (r : Bool × State) → reuse_session w cfg s ≡ r → Origin w cfg s (or_login w cfg r)
    either (true, s') eq = reused s' eq
    either (false, s') eq =
        logged_in-Origin w cfg s
          (record s' {
            client = (w.login (login_request cfg) s'.client).1;
            logins = s'.logins ++ login_request cfg ∷ [];
          })
          (w.login (login_request cfg) s'.client).0
          (ap (λ (p : Bool × State). (w.login (login_request cfg) p.1.client).0) eq)
          (ap (λ (p : Bool × State). (w.login (login_request cfg) p.1.client).1) (sym eq))

-- The server's answer to a login has a token and a device, and mautrix keeps both.
abbrev pub StoresCredentials : World → Type 0
StoresCredentials w =
    (req : LoginRequest) (c : Client) (session : StoredSession)
    → (w.login req c).0 ≡ value session
    → ((w.login req c).1.access_token ≡ session.access_token)
      × ((w.login req c).1.device_id ≡ session.device_id)
      × (is_empty session.access_token ≡ false)
      × (is_empty session.device_id ≡ false)

-- encoding/json reads what it wrote.
abbrev pub ReadsBack : World → Type 0
ReadsBack w =
    (session : StoredSession) (contents : Text)
    → w.marshal session ≡ value contents
    → w.unmarshal contents ≡ some session

-- Only the client is touched by a token that is tried.
ClientOnly : State → State → Type 0
ClientOnly s s' = s' ≡ record s { client = s'.client }

recognised-ClientOnly :
    (cfg : Config) (user : Fallible Text) (s : State) → ClientOnly s (recognised cfg user s).1
unfolding ClientOnly
recognised-ClientOnly cfg (error e) s = refl
recognised-ClientOnly cfg (value user) s =
    if_keeps (λ (r : Bool × State). ClientOnly s r.1) (text_eq user cfg.user_id) refl refl

reuse_session-ClientOnly :
    (w : World) (cfg : Config) (s : State) → ClientOnly s (reuse_session w cfg s).1
unfolding ClientOnly reuse_session
reuse_session-ClientOnly w cfg s = by_file s.session_file
  where
    by_session : (stored : Option StoredSession) → ClientOnly s (with_stored w cfg stored s).1
    by_session none = refl
    by_session (some stored) =
        if_keeps (λ (r : Bool × State). ClientOnly s r.1) (is_empty stored.access_token) refl
          (recognised-ClientOnly cfg (w.whoami stored.access_token)
            (record s { client = with_token stored s.client }))

    by_file : (file : Option Text) → ClientOnly s (with_file w cfg file s).1
    by_file none = refl
    by_file (some contents) = by_session (w.unmarshal contents)

restarted-ClientOnly : (s s' : State) → ClientOnly s s' → restarted s.client s' ≡ s
unfolding ClientOnly
restarted-ClientOnly s s' h = ap (restarted s.client) h

-- The session that a login stored is used at the next start.
reuse_session_new :
    (w : World) (cfg : Config) (s : State) (c : Client) (session : StoredSession) (contents : Text)
    → s.session_file ≡ some contents
    → w.unmarshal contents ≡ some session
    → is_empty session.access_token ≡ false
    → w.whoami session.access_token ≡ value cfg.user_id
    → reuse_session w cfg (restarted c s) ≡ (true, record s { client = with_token session c })
unfolding reuse_session
reuse_session_new w cfg s c session contents file json token known =
    ap (λ f. with_file w cfg f (restarted c s)) file
    ∙ (ap (λ o. with_stored w cfg o (restarted c s)) json
        ∙ rw (token, known, text_eq_refl cfg.user_id) refl)

Client-ext :
    (c c' : Client) → c.access_token ≡ c'.access_token → c.device_id ≡ c'.device_id → c ≡ c'
Client-ext c c' h k = cc (h, k)

ensure_password_login_new :
    (w : World) (cfg : Config) (s : State) (c : Client) (session : StoredSession) (contents : Text)
    → s.session_file ≡ some contents
    → w.unmarshal contents ≡ some session
    → is_empty session.access_token ≡ false
    → w.whoami session.access_token ≡ value cfg.user_id
    → s.client ≡ with_token session c
    → ensure_password_login w cfg (restarted c s) ≡ (value tt, s)
unfolding ensure_password_login or_login
ensure_password_login_new w cfg s c session contents file json token known same =
    ap (or_login w cfg) (reuse_session_new w cfg s c session contents file json token known)
    ∙ ap (λ k. (value tt, record s { client = k })) (sym same)

-- If the server and mautrix keep what a login gives and the session file reads back, then after a
-- password login that worked, be it by the old token or by the password, a restart finds the same
-- token and device and does not log in again, as long as the server knows the token.
pub ensure_password_login_restart :
    (w : World) (cfg : Config) (s : State)
    → StoresCredentials w
    → ReadsBack w
    → (ensure_password_login w cfg s).0 ≡ value tt
    → w.whoami (ensure_password_login w cfg s).1.client.access_token ≡ value cfg.user_id
    → ensure_password_login w cfg (restarted s.client (ensure_password_login w cfg s).1)
      ≡ (value tt, (ensure_password_login w cfg s).1)
ensure_password_login_restart w cfg s stores reads ok known =
    by_origin (ensure_password_login w cfg s) refl (ensure_password_login-Origin w cfg s) ok known
  where
    by_origin :
        (out : Done × State)
        → ensure_password_login w cfg s ≡ out
        → Origin w cfg s out
        → out.0 ≡ value tt
        → w.whoami out.1.client.access_token ≡ value cfg.user_id
        → ensure_password_login w cfg (restarted s.client out.1) ≡ (value tt, out.1)
    by_origin _ eq (failed e s') ok known = cc
    by_origin _ eq (reused s' r) ok known =
        ap (ensure_password_login w cfg) (
          restarted-ClientOnly s s'
            (subst (λ (p : Bool × State). ClientOnly s p.1) r (reuse_session-ClientOnly w cfg s)))
        ∙ eq
    by_origin _ eq (new session contents s' l m file c) ok known =
        let kept = stores (login_request cfg) (reuse_session w cfg s).1.client session l in
        let token : s'.client.access_token ≡ session.access_token =
          ap (λ (k : Client). k.access_token) c ∙ kept.0 in
        ensure_password_login_new w cfg s' s.client session contents file (reads session contents m)
          kept.2 (ap w.whoami (sym token) ∙ known)
          (Client-ext s'.client (with_token session s.client) token (
            ap (λ (k : Client). k.device_id) c
            ∙ (kept.1
                ∙ sym (ap (λ b. if b then s.client.device_id else session.device_id) kept.3))))
