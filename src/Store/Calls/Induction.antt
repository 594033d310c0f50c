-- ===== src/Store/Calls/Induction.antt =====
-- The induction principle of the state machine: what the building blocks keep, every call keeps.
use hoocloak.Base.{List, [], ◌∷◌}
use hoocloak.Store.Types.{Store, Crypto}
use hoocloak.Store.Prune.{prune}
use hoocloak.Store.Calls.{Call, step, run}
use hoocloak.Store.Calls.Fresh.{IsFresh, AllFresh}
use hoocloak.Store.Calls.Kept.{IsKept}
use hoocloak.Store.Calls.Authorize.{
  create_auth_request-P, auth_request_by_id-P, auth_request_by_code-P, save_auth_code-P,
}
use hoocloak.Store.Calls.SignIn.{
  authenticate_start-P, select_identity-P, login_info-P, issue_completion_secret-P,
  consume_completion_secret-P,
}
use hoocloak.Store.Calls.Session.{
  token_request_by_refresh_token-P, terminate_session-P, get_refresh_token_info-P, revoke_token-P,
  set_userinfo_from_token-P, set_introspection_from_token-P,
}
use hoocloak.Store.Calls.Issue.{create_access_token-P, create_access_and_refresh_tokens-P}

module _ (crypto : Crypto) where
  -- A call keeps what its building blocks keep, if the identifiers that it draws are new.
  pub step-IsKept :
      (P : Store → Type 0) (keep : IsKept crypto P) (s : Store) (call : Call)
      → IsFresh crypto s call
      → P s
      → P (step crypto s call)
  unfolding step
  step-IsKept P keep s (Call.create_auth_request now random request user) f h =
      create_auth_request-P crypto P keep s h now random request user f
  step-IsKept P keep s (Call.auth_request_by_id now id) f h =
      auth_request_by_id-P crypto P keep s h now id
  step-IsKept P keep s (Call.auth_request_by_code now code) f h =
      auth_request_by_code-P crypto P keep s h now code
  step-IsKept P keep s (Call.save_auth_code now id code) f h =
      save_auth_code-P crypto P keep s h now id code
  step-IsKept P keep s (Call.delete_auth_request id) f h = keep.deletes s id h
  step-IsKept P keep s (Call.authenticate_start now id username) f h =
      authenticate_start-P crypto P keep s h now id username
  step-IsKept P keep s (Call.commit now id user) f h =
      keep.completes (prune now s) id user now "pwd" (keep.prunes now s h)
  step-IsKept P keep s (Call.select_identity now id user_id) f h =
      select_identity-P crypto P keep s h now id user_id
  step-IsKept P keep s (Call.login_info now id) f h = login_info-P crypto P keep s h now id
  step-IsKept P keep s (Call.issue_completion_secret now random id) f h =
      issue_completion_secret-P crypto P keep s h now random id
  step-IsKept P keep s (Call.consume_completion_secret now id secret) f h =
      consume_completion_secret-P crypto P keep s h now id secret
  step-IsKept P keep s (Call.create_access_token now random request) f h =
      create_access_token-P crypto P keep s h now random request f
  step-IsKept P keep s
        (Call.create_access_and_refresh_tokens now token access family request current) f h =
      create_access_and_refresh_tokens-P crypto P keep s h now token access family request current f
  step-IsKept P keep s (Call.token_request_by_refresh_token now token) f h =
      token_request_by_refresh_token-P crypto P keep s h now token
  step-IsKept P keep s (Call.terminate_session now subject client_id) f h =
      terminate_session-P crypto P keep s h now subject client_id
  step-IsKept P keep s (Call.get_refresh_token_info now client_id token) f h =
      get_refresh_token_info-P crypto P keep s h now client_id token
  step-IsKept P keep s (Call.revoke_token now token client_id) f h =
      revoke_token-P crypto P keep s h now token client_id
  step-IsKept P keep s (Call.set_userinfo_from_token now info id subject origin) f h =
      set_userinfo_from_token-P crypto P keep s h now info id subject origin
  step-IsKept P keep s (Call.set_introspection_from_token now id subject client_id) f h =
      set_introspection_from_token-P crypto P keep s h now id subject client_id
  step-IsKept P keep s (Call.get_audience p) f h = keep.audits s p h

  pub run-IsKept :
      (P : Store → Type 0) (keep : IsKept crypto P) (s : Store) (calls : List Call)
      → AllFresh crypto s calls
      → P s
      → P (run crypto s calls)
  unfolding run
  run-IsKept P keep s [] f h = h
  run-IsKept P keep s (call ∷ rest) f h =
      run-IsKept P keep (step crypto s call) rest f.1 (step-IsKept P keep s call f.0 h)
