-- ===== src/Store/Calls.antt =====
-- internal/idp/storage.go: the store as a state machine. Each constructor is one critical section
-- of the mutex, so a list of calls is an interleaving of any number of clients; `Authenticate`
-- has two, and `commit` is its second one, for whatever user the first has read.
pub mod Fresh
pub mod Kept
mod Authorize
mod SignIn
mod Session
mod Issue
pub mod Induction
pub mod Schedule
use hoocloak.Base.{String, List, [], ◌∷◌, Option}
use hoocloak.Config.{User}
use hoocloak.Store.Info
use hoocloak.Store.Info.{UserInfo}
use hoocloak.Store.Login
use hoocloak.Store.Prune.{prune}
use hoocloak.Store.Requests
use hoocloak.Store.Requests.{OidcRequest}
use hoocloak.Store.Sessions
use hoocloak.Store.Access
use hoocloak.Store.Tokens
use hoocloak.Store.Types.{Time, Ref, Store, TokenRequest, Crypto}

pub data Call : Type 0 where
  create_auth_request : Time → Option String → OidcRequest → String → Call
  auth_request_by_id : Time → String → Call
  auth_request_by_code : Time → String → Call
  save_auth_code : Time → String → String → Call
  delete_auth_request : String → Call
  authenticate_start : Time → String → String → Call
  commit : Time → String → User → Call
  select_identity : Time → String → String → Call
  login_info : Time → String → Call
  issue_completion_secret : Time → Option String → String → Call
  consume_completion_secret : Time → String → String → Call
  create_access_token : Time → Option String → TokenRequest → Call
  create_access_and_refresh_tokens :
      Time → Option String → Option String → Option String → TokenRequest → String → Call
  token_request_by_refresh_token : Time → String → Call
  terminate_session : Time → String → String → Call
  get_refresh_token_info : Time → String → String → Call
  revoke_token : Time → String → String → Call
  set_userinfo_from_token : Time → UserInfo → String → String → String → Call
  set_introspection_from_token : Time → String → String → String → Call
  get_audience : Ref → Call

module _ (crypto : Crypto) where
  unfoldable pub step : Store → Call → Store
  step s (create_auth_request now random request user) =
      (Requests.create_auth_request s now random request user).0
  step s (auth_request_by_id now id) = (Requests.auth_request_by_id s now id).0
  step s (auth_request_by_code now code) = (Requests.auth_request_by_code s now code).0
  step s (save_auth_code now id code) = (Requests.save_auth_code s now id code).0
  step s (delete_auth_request id) = (Requests.delete_auth_request s id).0
  step s (authenticate_start now id username) =
      (Login.authenticate_start crypto s now id username).0
  step s (commit now id user) = (Login.complete_authentication (prune now s) id user now "pwd").0
  step s (select_identity now id user_id) = (Login.select_identity s now id user_id).0
  step s (login_info now id) = (Login.login_info s now id).0
  step s (issue_completion_secret now random id) =
      (Login.issue_completion_secret crypto s now random id).0
  step s (consume_completion_secret now id secret) =
      (Login.consume_completion_secret crypto s now id secret).0
  step s (create_access_token now random request) =
      (Access.create_access_token s now random request "").0
  step s (create_access_and_refresh_tokens now token access family request current) =
      (Tokens.create_access_and_refresh_tokens crypto s now token access family request current).0
  step s (token_request_by_refresh_token now token) =
      (Sessions.token_request_by_refresh_token crypto s now token).0
  step s (terminate_session now subject client_id) =
      (Sessions.terminate_session s now subject client_id).0
  step s (get_refresh_token_info now client_id token) =
      (Sessions.get_refresh_token_info crypto s now client_id token).0
  step s (revoke_token now token client_id) = Sessions.revoke_token crypto s now token client_id
  step s (set_userinfo_from_token now info id subject origin) =
      (Info.set_userinfo_from_token s now info id subject origin).0
  step s (set_introspection_from_token now id subject client_id) =
      (Info.set_introspection_from_token s now id subject client_id).0
  step s (get_audience p) = (Requests.get_audience s p).0

  unfoldable pub run : Store → List Call → Store
  run s [] = s
  run s (call ∷ rest) = run (step s call) rest
