-- ===== src/Store/Login/Authenticated.antt =====
-- What a successful `Authenticate` has checked.
use hoocloak.Base.{
  ◌≡◌, refl, subst, sym, ap, ◌∙◌, inl, inr, ◌⊎◌, ◌<◌, String, true, false, some, or_zero, arith,
  text_dec, Option-cases, Bool-cases,
}
use hoocloak.Base.Map.{lookup}
use hoocloak.Client.{Client}
use hoocloak.Config.{User}
use hoocloak.Config.Text.{canonical_username}
use hoocloak.Store.Types.{
  Time, Ref, Store, Crypto, Result, Result-cases, ok, err, zero_user, request_done,
}
use hoocloak.Store.Prune.{prune}
use hoocloak.Store.Requests.{write}
use hoocloak.Store.Login.{
  Slots, LoginCheck, take_slot, begin_comparison, compare_credential, login_check,
  authenticate_start, authenticate_check, authenticate, complete_authentication, completed, is_done,
}

-- The password is the user's: it matches the hash, or it is the default one for a user with none.
abbrev pub IsPassword : Crypto → User → String → Type 0
IsPassword crypto user password =
    ((user.password_hash ≡ "") × (password ≡ "hoo"))
    ⊎ (crypto.matches user.password_hash password ≡ true)

-- The request `id` was open in `before`, with its client; in `after` the user has completed it.
pub record Completed (before after : Store) (id : String) (user : User) (now : Time)
    (method : String) : Type 0 where
  pub p : Ref
  pub client : Client
  pub found : lookup text_dec id before.auth_requests ≡ some p
  pub open_ : (before.heap p).done ≡ false
  pub registered : lookup text_dec (before.heap p).client_id before.clients ≡ some client
  pub written : after ≡ write p (completed (before.heap p) client user now method) before

pub complete_authentication-Completed :
    (s : Store) (id : String) (user : User) (now : Time) (method : String)
    → (complete_authentication s id user now method).1 ≡ ok tt
    → Completed s (complete_authentication s id user now method).0 id user now method
unfolding complete_authentication
complete_authentication-Completed s id user now method e =
    elim (Option-cases (lookup text_dec id s.auth_requests)) [
      | inl f ↦ absurd (ground (arith, e, f))
      | inr (p, f) ↦ elim (Bool-cases (s.heap p).done) [
        | inl d ↦ absurd (ground (arith, e, f, d))
        | inr d ↦ elim (Option-cases (lookup text_dec (s.heap p).client_id s.clients)) [
          | inl g ↦ absurd (ground (arith, e, f, d, g))
          | inr (client, g) ↦ record {
            p = p;
            client = client;
            found = f;
            open_ = d;
            registered = g;
            written =
                rw (f, complete_authentication)
                  (rw (d, complete_authentication) (rw (g, complete_authentication) refl));
          }
        ]
      ]
    ]

module _ (crypto : Crypto) where
  authenticate_check-ok :
      (s : Store) (q : Slots) (id username password : String)
      → authenticate_check crypto q (login_check crypto s id username) password ≡ ok tt
      → (q.used < q.capacity)
        × ((user_id : String) × (lookup text_dec
                (canonical_username crypto.fold username)
                s.usernames
              ≡ some user_id)
            × IsPassword crypto (or_zero (lookup text_dec user_id s.users) zero_user) password)
        × ((login_check crypto s id username).user
            ≡ or_zero
                (lookup text_dec
                  (or_zero
                    (lookup text_dec (canonical_username crypto.fold username) s.usernames)
                    "")
                  s.users)
                zero_user)
  unfolding authenticate_check login_check compare_credential begin_comparison take_slot
  authenticate_check-ok s q id username password e =
      elim (Option-cases (lookup text_dec (canonical_username crypto.fold username) s.usernames)) [
        | inl f ↦ absurd (ground (arith, e, f))
        | inr (user_id, f) ↦ (ground (arith, e, f), (user_id, f, ground (arith, e, f)), refl)
      ]

  authenticate_start-open :
      (s : Store) (now : Time) (id username : String)
      → is_done (prune now s) (lookup text_dec id (prune now s).auth_requests) ≡ false
      → authenticate_start crypto s now id username
        ≡ (prune now s, ok (login_check crypto (prune now s) id username))
  unfolding authenticate_start
  authenticate_start-open s now id username d = rw (d, authenticate_start) refl

  authenticate_start-done :
      (s : Store) (now : Time) (id username : String)
      → is_done (prune now s) (lookup text_dec id (prune now s).auth_requests) ≡ true
      → authenticate_start crypto s now id username ≡ (prune now s, err request_done)
  unfolding authenticate_start
  authenticate_start-done s now id username d = rw (d, authenticate_start) refl

  -- A login that succeeds: whose it is, and what it has done.
  pub record Authenticated (start middle after : Store) (q : Slots) (id username password : String)
      (now : Time) : Type 0 where
    pub slot : q.used < q.capacity
    pub user_id : String
    pub named :
        lookup text_dec (canonical_username crypto.fold username) start.usernames ≡ some user_id
    pub password_ :
        IsPassword crypto (or_zero (lookup text_dec user_id start.users) zero_user) password
    pub completes :
        Completed middle after id
          (or_zero (lookup text_dec user_id start.users) zero_user)
          now
          "pwd"

  -- A login succeeds only for a user name that is registered, with the user's password, or the
  -- default one if the user has none, and while a slot is free; it completes the request, which was
  -- still open at its second critical section, whatever the calls between the two did.
  pub authenticate-Authenticated :
      (s : Store) (meanwhile : Store → Store) (q : Slots) (now later : Time)
      (id username password : String)
      → (authenticate crypto s meanwhile q now later id username password).1 ≡ ok tt
      → Authenticated
          (prune now s)
          (prune later (meanwhile (prune now s)))
          (authenticate crypto s meanwhile q now later id username password).0
          q
          id
          username
          password
          later
  unfolding authenticate
  authenticate-Authenticated s meanwhile q now later id username password e =
      let t = prune now s in
      let c = login_check crypto t id username in
      elim (Bool-cases (is_done t (lookup text_dec id t.auth_requests))) [
        | inl d ↦ absurd (ground (arith, e, authenticate_start-done s now id username d))
        | inr d ↦ elim (Result-cases (authenticate_check crypto q c password)) [
          | inr (x, f) ↦ absurd (ground (arith, e, authenticate_start-open s now id username d, f))
          | inl (done, f) ↦
              let facts = authenticate_check-ok t q id username password f in
              let at_end : authenticate crypto s meanwhile q now later id username password
                  ≡ complete_authentication (prune later (meanwhile t)) id c.user later "pwd" =
                rw (authenticate_start-open s now id username d, authenticate)
                  (rw (f, authenticate)
                    (ap
                      (λ (r : Store × Result LoginCheck).
                        complete_authentication (prune later (meanwhile r.0)) id c.user later "pwd")
                      (authenticate_start-open s now id username d))) in
              record {
                slot = facts.0;
                user_id = facts.1.0;
                named = facts.1.1;
                password_ = facts.1.2;
                completes =
                    subst
                      (λ u.
                        Completed (prune later (meanwhile t))
                          (authenticate crypto s meanwhile q now later id username password).0 id u
                          later "pwd")
                      (ground (arith, facts.2, facts.1.1))
                      (subst
                        (λ (r : Store × Result (Unit {0})).
                          Completed (prune later (meanwhile t)) r.0 id c.user later "pwd")
                        (sym at_end)
                        (complete_authentication-Completed (prune later (meanwhile t)) id c.user
                          later "pwd"
                          (ap (λ (r : Store × Result (Unit {0})). r.1) (sym at_end) ∙ e)));
              }
        ]
      ]
