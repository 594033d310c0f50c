-- ===== src/Server/Handler/Reaches.antt =====
-- One state of the store leads to another by the store's own calls.
use hoocloak.Base.{
  ◌≡◌, refl, sym, ap, ◌∙◌, subst, inl, inr, String, List, [], ◌∷◌, ◌++◌, Option, arith, Bool, true,
  false, not, ◌&&◌, ◌⊎◌,
}
use hoocloak.Store.Types.{Time, Store, Crypto, Result-cases}
use hoocloak.Store.Calls.{Call, step, run}
use hoocloak.Store.Calls.Fresh.{AllFresh, IsFresh}
use hoocloak.Store.Login.{
  login_info, select_identity, authenticate, authenticate_start, authenticate_check,
  issue_completion_secret, consume_completion_secret, Slots,
}
use hoocloak.Server.Http.{Request, Response}
use hoocloak.Server.Realm.{Web}
use hoocloak.Server.Login.{Turn}

-- The calls by which somebody is signed in.
abbrev pub signs_in : Call → Bool
signs_in (Call.authenticate_start now id username) = true
signs_in (Call.commit now id user) = true
signs_in (Call.select_identity now id user_id) = true
signs_in (Call.issue_completion_secret now random id) = true
signs_in _ = false

abbrev pub none_signs_in : List Call → Bool
none_signs_in [] = true
none_signs_in (call ∷ rest) = not (signs_in call) && none_signs_in rest

-- Calls of the store with new identifiers lead from one state to the other, and none of them signs
-- somebody in, unless there is a permission for it.
pub record Reaches (crypto : Crypto) (Permission : Type 0) (s t : Store) : Type 0 where
  pub calls : List Call
  pub fresh : AllFresh crypto s calls
  pub runs : run crypto s calls ≡ t
  pub permitted : Permission ⊎ (none_signs_in calls ≡ true)

none_signs_in-append :
    (xs ys : List Call)
    → none_signs_in xs ≡ true
    → none_signs_in ys ≡ true
    → none_signs_in (xs ++ ys) ≡ true
none_signs_in-append [] ys h k = k
none_signs_in-append (x ∷ xs) ys h k =
    ground (arith, h, none_signs_in-append xs ys (ground (arith, h)) k)

both_permitted :
    (Permission : Type 0) (xs ys : List Call)
    → Permission ⊎ (none_signs_in xs ≡ true)
    → Permission ⊎ (none_signs_in ys ≡ true)
    → Permission ⊎ (none_signs_in (xs ++ ys) ≡ true)
both_permitted P xs ys (inl p) k = inl p
both_permitted P xs ys (inr h) (inl p) = inl p
both_permitted P xs ys (inr h) (inr k) = inr (none_signs_in-append xs ys h k)

run-append :
    (crypto : Crypto) (s : Store) (xs ys : List Call)
    → run crypto s (xs ++ ys) ≡ run crypto (run crypto s xs) ys
unfolding run
run-append crypto s [] ys = refl
run-append crypto s (x ∷ xs) ys = run-append crypto (step crypto s x) xs ys

AllFresh-append :
    (crypto : Crypto) (s : Store) (xs ys : List Call)
    → AllFresh crypto s xs
    → AllFresh crypto (run crypto s xs) ys
    → AllFresh crypto s (xs ++ ys)
unfolding run
AllFresh-append crypto s [] ys h k = k
AllFresh-append crypto s (x ∷ xs) ys (f, h) k =
    (f, AllFresh-append crypto (step crypto s x) xs ys h k)

-- Other calls of the store.
abbrev pub Others : Crypto → (Store → Store) → Type 0
Others crypto f = (s : Store) → Reaches crypto (Unit {0}) s (f s)

module _ (crypto : Crypto) (Permission : Type 0) where
  pub stays : (s : Store) → Reaches crypto Permission s s
  unfolding run
  stays s = record { calls = []; fresh = tt; runs = refl; permitted = inr refl }

  pub Reaches-trans :
      {s t u : Store}
      → Reaches crypto Permission s t
      → Reaches crypto Permission t u
      → Reaches crypto Permission s u
  Reaches-trans {s} {t} {u} a b = record {
    calls = a.calls ++ b.calls;
    fresh =
        AllFresh-append crypto s a.calls b.calls a.fresh
          (subst (λ x. AllFresh crypto x b.calls) (sym a.runs) b.fresh);
    runs = run-append crypto s a.calls b.calls ∙ ap (λ x. run crypto x b.calls) a.runs ∙ b.runs;
    permitted = both_permitted Permission a.calls b.calls a.permitted b.permitted;
  }

  pub calls_once :
      (s : Store) (call : Call)
      → IsFresh crypto s call
      → Permission ⊎ (none_signs_in (call ∷ []) ≡ true)
      → Reaches crypto Permission s (step crypto s call)
  unfolding run
  calls_once s call f p = record { calls = call ∷ []; fresh = (f, tt); runs = refl; permitted = p }

  pub login_info-Reaches :
      (s : Store) (now : Time) (id : String) → Reaches crypto Permission s (login_info s now id).0
  unfolding step
  login_info-Reaches s now id = calls_once s (Call.login_info now id) tt (inr refl)

  pub select_identity-Reaches :
      (s : Store) (now : Time) (id user_id : String)
      → Permission
      → Reaches crypto Permission s (select_identity s now id user_id).0
  unfolding step
  select_identity-Reaches s now id user_id p =
      calls_once s (Call.select_identity now id user_id) tt (inl p)

  pub issue-Reaches :
      (s : Store) (now : Time) (random : Option String) (id : String)
      → Permission
      → Reaches crypto Permission s (issue_completion_secret crypto s now random id).0
  unfolding step
  issue-Reaches s now random id p =
      calls_once s (Call.issue_completion_secret now random id) tt (inl p)

  pub consume-Reaches :
      (s : Store) (now : Time) (id secret : String)
      → Reaches crypto Permission s (consume_completion_secret crypto s now id secret).0
  unfolding step
  consume-Reaches s now id secret =
      calls_once s (Call.consume_completion_secret now id secret) tt (inr refl)

  -- With a permission any calls may be made.
  pub permits :
      {s t : Store} → Permission → Reaches crypto (Unit {0}) s t → Reaches crypto Permission s t
  permits p h = record { calls = h.calls; fresh = h.fresh; runs = h.runs; permitted = inl p }

  -- Without one, calls that sign nobody in.
  pub quiet : {s t : Store} → Reaches crypto ⊥ s t → Reaches crypto Permission s t
  quiet h = record {
    calls = h.calls;
    fresh = h.fresh;
    runs = h.runs;
    permitted = elim h.permitted [ inl none ↦ absurd none | inr q ↦ inr q ];
  }

  pub authenticate-Reaches :
      (s : Store) (meanwhile : Store → Store) (q : Slots) (now later : Time)
      (id username password : String)
      → Others crypto meanwhile
      → Permission
      → Reaches crypto Permission s
          (authenticate crypto s meanwhile q now later id username password).0
  unfolding authenticate step
  authenticate-Reaches s meanwhile q now later id username password others p =
      let started = authenticate_start crypto s now id username in
      let first : Reaches crypto Permission s started.0 =
        calls_once s (Call.authenticate_start now id username) tt (inl p) in
      elim (Result-cases started.1) [
        | inr (x, e) ↦ subst (Reaches crypto Permission s) (ground (arith, e)) first
        | inl (c, e) ↦ elim (Result-cases (authenticate_check crypto q c password)) [
          | inr (x, f) ↦
              subst (Reaches crypto Permission s) (ground (arith, e, f))
                (Reaches-trans first (permits p (others started.0)))
          | inl (u, f) ↦ subst (Reaches crypto Permission s) (ground (arith, e, f)) (
              Reaches-trans (Reaches-trans first (permits p (others started.0)))
                (calls_once (meanwhile started.0) (Call.commit later id c.user) tt (inl p)))
        ]
      ]

-- From one permission to another.
pub weaken :
    (crypto : Crypto) (P Q : Type 0) {s t : Store}
    → (P → Q)
    → Reaches crypto P s t
    → Reaches crypto Q s t
weaken crypto P Q f h = record {
  calls = h.calls;
  fresh = h.fresh;
  runs = h.runs;
  permitted = elim h.permitted [ inl p ↦ inl (f p) | inr q ↦ inr q ];
}

-- What the handlers rely on: the provider and the other goroutines change the store by its calls.
-- The storage that the provider knows has no operation that signs somebody in.
pub record Disciplined (web : Web) (turn : Turn) : Type 0 where
  pub provider :
      (s : Store) (r : Request) (w : Response) → Reaches web.crypto ⊥ s (web.provider s r w).0
  pub before_check : Others web.crypto turn.before_check
  pub during_check : Others web.crypto turn.during_check
  pub before_issue : Others web.crypto turn.before_issue
