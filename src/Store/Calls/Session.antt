-- ===== src/Store/Calls/Session.antt =====
-- The calls on sessions and tokens in use keep what their building blocks keep.
use hoocloak.Base.{inl, inr, String, Option, none, some, arith, text_dec, Option-cases}
use hoocloak.Base.Map.{lookup}
use hoocloak.Store.Types.{Time, Store, Crypto, RefreshRecord}
use hoocloak.Store.Prune.{prune}
use hoocloak.Store.Sessions.{revoke_family, end_sessions, revoke_access, revoke_refresh}
use hoocloak.Store.Sessions
use hoocloak.Store.Info
use hoocloak.Store.Calls.Kept.{IsKept}

module _ (crypto : Crypto) (P : Store → Type 0) (keep : IsKept crypto P) (s : Store) (h : P s) where
  pruned : (now : Time) → P (prune now s)
  pruned now = keep.prunes now s h

  pub token_request_by_refresh_token-P :
      (now : Time) (token : String)
      → P (Sessions.token_request_by_refresh_token crypto s now token).0
  unfolding Sessions.token_request_by_refresh_token Sessions.request_by_record
  token_request_by_refresh_token-P now token =
      elim (Option-cases (lookup text_dec (crypto.sum256 token) (prune now s).refresh)) [
        | inl e ↦ rw (e, Sessions.token_request_by_refresh_token) (pruned now)
        | inr (r, e) ↦
            ground (arith, pruned now, keep.revokes (prune now s) r.family_id (pruned now))
      ]

  pub terminate_session-P :
      (now : Time) (subject client_id : String)
      → P (Sessions.terminate_session s now subject client_id).0
  unfolding Sessions.terminate_session
  terminate_session-P now subject client_id =
      ground (arith, h, keep.ends (prune now s) subject client_id (pruned now))

  pub get_refresh_token_info-P :
      (now : Time) (client_id token : String)
      → P (Sessions.get_refresh_token_info crypto s now client_id token).0
  unfolding Sessions.get_refresh_token_info
  get_refresh_token_info-P now client_id token = ground (arith, pruned now)

  pub revoke_refresh-P :
      (client_id : String) (now : Time) (o : Option RefreshRecord)
      → P (revoke_refresh (prune now s) client_id o)
  unfolding revoke_refresh
  revoke_refresh-P client_id now none = pruned now
  revoke_refresh-P client_id now (some r) =
      ground (arith, pruned now, keep.revokes (prune now s) r.family_id (pruned now))

  pub revoke_token-P :
      (now : Time) (token client_id : String)
      → P (Sessions.revoke_token crypto s now token client_id)
  unfolding Sessions.revoke_token
  revoke_token-P now token client_id =
      elim (Option-cases (lookup text_dec token (prune now s).access)) [
        | inl e ↦ ground (
          arith,
          e,
          revoke_refresh-P client_id now
              (lookup text_dec (crypto.sum256 token) (prune now s).refresh),
        )
        | inr (r, e) ↦ ground (
          arith,
          pruned now,
          revoke_refresh-P client_id now
              (lookup text_dec (crypto.sum256 token) (prune now s).refresh),
          keep.revokes_access (prune now s) token client_id r e (pruned now),
        )
      ]

  pub set_userinfo_from_token-P :
      (now : Time) (info : Info.UserInfo) (id subject origin : String)
      → P (Info.set_userinfo_from_token s now info id subject origin).0
  unfolding Info.set_userinfo_from_token
  set_userinfo_from_token-P now info id subject origin = ground (arith, pruned now)

  pub set_introspection_from_token-P :
      (now : Time) (id subject client_id : String)
      → P (Info.set_introspection_from_token s now id subject client_id).0
  unfolding Info.set_introspection_from_token
  set_introspection_from_token-P now id subject client_id = ground (arith, pruned now)
