-- ===== src/Store/Calls/SignIn.antt =====
-- The calls of a login keep what their building blocks keep.
use hoocloak.Base.{inl, inr, String, Option, none, some, arith, text_dec, Option-cases}
use hoocloak.Base.Map.{lookup}
use hoocloak.Store.Types.{Time, Store, Crypto}
use hoocloak.Store.Prune.{prune}
use hoocloak.Store.Login.{complete_authentication}
use hoocloak.Store.Login
use hoocloak.Store.Calls.Kept.{IsKept}

module _ (crypto : Crypto) (P : Store → Type 0) (keep : IsKept crypto P) (s : Store) (h : P s) where
  pruned : (now : Time) → P (prune now s)
  pruned now = keep.prunes now s h

  pub authenticate_start-P :
      (now : Time) (id username : String) → P (Login.authenticate_start crypto s now id username).0
  unfolding Login.authenticate_start
  authenticate_start-P now id username = ground (arith, pruned now)

  pub select_identity-P :
      (now : Time) (id user_id : String) → P (Login.select_identity s now id user_id).0
  unfolding Login.select_identity
  select_identity-P now id user_id =
      elim (Option-cases (lookup text_dec user_id (prune now s).users)) [
        | inl e ↦ rw (e, Login.select_identity) (pruned now)
        | inr (user, e) ↦
            rw (e, Login.select_identity)
              (keep.completes (prune now s) id user now "dev-select" (pruned now))
      ]

  pub login_info-P : (now : Time) (id : String) → P (Login.login_info s now id).0
  unfolding Login.login_info
  login_info-P now id = ground (arith, pruned now)

  pub issue_completion_secret-P :
      (now : Time) (random : Option String) (id : String)
      → P (Login.issue_completion_secret crypto s now random id).0
  unfolding Login.issue_completion_secret
  issue_completion_secret-P now none id = ground (arith, pruned now)
  issue_completion_secret-P now (some secret) id =
      elim (Option-cases (lookup text_dec id (prune now s).auth_requests)) [
        | inl e ↦ rw (e, Login.issue_completion_secret) (pruned now)
        | inr (p, e) ↦ ground (
          arith,
          pruned now,
          keep.hashes (prune now s) id p (crypto.sum256 secret) e (pruned now),
        )
      ]

  pub consume_completion_secret-P :
      (now : Time) (id secret : String)
      → P (Login.consume_completion_secret crypto s now id secret).0
  unfolding Login.consume_completion_secret
  consume_completion_secret-P now id secret =
      elim (Option-cases (lookup text_dec id (prune now s).auth_requests)) [
        | inl e ↦ rw (e, Login.consume_completion_secret) (pruned now)
        | inr (p, e) ↦ ground (
          arith,
          pruned now,
          keep.hashes (prune now s) id p
              "0000000000000000000000000000000000000000000000000000000000000000" e (pruned now),
        )
      ]
