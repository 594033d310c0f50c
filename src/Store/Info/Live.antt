-- ===== src/Store/Info/Live.antt =====
-- Only access tokens that are there and have not expired are answered for.
use hoocloak.Base.{
  refl, ap, ◌∙◌, subst, List, contains, if◌then◌else◌, Bool-cases, ◌≡◌, ◌↔◌, ◌⊎◌, ◌<◌, inl, inr,
  String, true, some, arith, text_dec, Option-cases,
}
use hoocloak.Base.{◌∈◌}
use hoocloak.Client.{Client}
use hoocloak.Base.Map.{lookup}
use hoocloak.Config.{User}
use hoocloak.Store.Types.{Time, AccessRecord, Store, ok}
use hoocloak.Store.Prune.{prune}
use hoocloak.Store.Prune.Schedule.{IsScheduled}
use hoocloak.Store.Prune.View.{prune-IsSwept, prune-users, prune-clients}
use hoocloak.Store.Info.{
  UserInfo, with_profile, with_email, Introspection, introspect, set_introspection_from_token,
  fill_userinfo, set_userinfo, origin_allowed, userinfo_of_record, set_userinfo_from_token,
}

module _ (s : Store) (now : Time) (id : String) where
  pruned_access :
      (r : AccessRecord)
      → IsScheduled s
      → (lookup text_dec id (prune now s).access ≡ some r)
        ↔ ((lookup text_dec id s.access ≡ some r) × (now < r.expires))
  pruned_access r h = elim (Option-cases (lookup text_dec id s.access)) [
    | inl e ↦ ground (arith, e, (prune-IsSwept now s h).access id)
    | inr (q, e) ↦ ground (arith, e, (prune-IsSwept now s h).access id)
  ]

  -- The token `id` is the record `r`, which has not expired, and the answer says what it has.
  pub record Answers (subject client_id : String) (x : Introspection) : Type 0 where
    pub r : AccessRecord
    pub found : lookup text_dec id s.access ≡ some r
    pub unexpired : now < r.expires
    pub of_subject : r.subject ≡ subject
    pub of_client : r.client_id ≡ client_id
    pub active : x.active ≡ true
    pub scope : x.scope ≡ r.scopes
    pub client : x.client_id ≡ r.client_id
    pub token_type : x.token_type ≡ "Bearer"
    pub expiration : x.expiration ≡ r.expires
    pub issued_at : x.issued_at ≡ r.issued_at
    pub subject_ : x.subject ≡ r.subject
    pub audience : x.audience ≡ r.audience
    pub jwt_id : x.jwt_id ≡ r.id

  answer_is :
      (subject client_id : String) (x : Introspection) (a : Answers subject client_id x)
      → x ≡ introspect a.r
  unfolding introspect
  answer_is subject client_id x a = λ i. record {
    active = a.active i;
    scope = a.scope i;
    client_id = a.client i;
    token_type = a.token_type i;
    expiration = a.expiration i;
    issued_at = a.issued_at i;
    subject = a.subject_ i;
    audience = a.audience i;
    jwt_id = a.jwt_id i;
  }

  introspection_sound :
      (subject client_id : String) (x : Introspection)
      → IsScheduled s
      → (set_introspection_from_token s now id subject client_id).1 ≡ ok x
      → Answers subject client_id x
  unfolding set_introspection_from_token introspect
  introspection_sound subject client_id x h e =
      elim (Option-cases (lookup text_dec id (prune now s).access)) [
        | inl f ↦ absurd (ground (arith, e, f))
        | inr (r, f) ↦
            let live = (pruned_access r h).0 f in
            let same : introspect r ≡ x = ground (arith, e, f) in
            subst (Answers subject client_id) same (record {
              r = r;
              found = live.0;
              unexpired = live.1;
              of_subject = ground (arith, e, f);
              of_client = ground (arith, e, f);
              active = refl;
              scope = refl;
              client = refl;
              token_type = refl;
              expiration = refl;
              issued_at = refl;
              subject_ = refl;
              audience = refl;
              jwt_id = refl;
            })
      ]

  introspection_complete :
      (subject client_id : String) (x : Introspection)
      → IsScheduled s
      → Answers subject client_id x
      → (set_introspection_from_token s now id subject client_id).1 ≡ ok x
  unfolding set_introspection_from_token
  introspection_complete subject client_id x h a = ground (
    arith,
    (pruned_access a.r h).1 (a.found, a.unexpired),
    a.of_subject,
    a.of_client,
    answer_is subject client_id x a,
  )

  -- Under a right schedule an introspection gives an answer exactly if the token is there, has not
  -- expired, and is the subject's and the client's, and the answer is active with the token's
  -- scopes, client, expiry, time of issue, subject, audience and ID, as a Bearer token.
  pub set_introspection_from_token-Answers :
      (subject client_id : String) (x : Introspection)
      → IsScheduled s
      → ((set_introspection_from_token s now id subject client_id).1 ≡ ok x)
        ↔ Answers subject client_id x
  set_introspection_from_token-Answers subject client_id x h =
      (introspection_sound subject client_id x h, introspection_complete subject client_id x h)

  -- The client is registered, with the origin among its own.
  pub record IsOwnOrigin (client_id origin : String) : Type 0 where
    pub client : Client
    pub registered : lookup text_dec client_id s.clients ≡ some client
    pub listed : origin ∈ client.config.origins

  origin_allowed-IsOwnOrigin :
      (client_id origin : String)
      → origin_allowed s client_id origin ≡ true
      → IsOwnOrigin client_id origin
  unfolding origin_allowed
  origin_allowed-IsOwnOrigin client_id origin e =
      elim (Option-cases (lookup text_dec client_id s.clients)) [
        | inl f ↦ absurd (ground (arith, e, f))
        | inr (client, f) ↦ record {
          client = client;
          registered = f;
          listed = ground (arith, e, f);
        }
      ]

  -- What a userinfo answer rests on, and what it says.
  pub record Informs (info : UserInfo) (subject origin : String) (x : UserInfo) : Type 0 where
    pub r : AccessRecord
    pub user : User
    pub found : lookup text_dec id s.access ≡ some r
    pub unexpired : now < r.expires
    pub of_subject : r.subject ≡ subject
    pub from : (origin ≡ "") ⊎ IsOwnOrigin r.client_id origin
    pub of_user : lookup text_dec subject s.users ≡ some user
    pub subject_ : x.subject ≡ user.id
    pub name : x.name ≡ (if contains r.scopes "profile" then user.name else info.name)
    pub preferred_username :
        x.preferred_username
        ≡ (if contains r.scopes "profile" then user.username else info.preferred_username)
    pub email : x.email ≡ (if contains r.scopes "email" then user.email else info.email)
    pub email_verified :
        x.email_verified
        ≡ (if contains r.scopes "email" then user.email_verified else info.email_verified)

  filled :
      (user : User) (scopes : List String) (info : UserInfo)
      → let x = fill_userinfo user scopes info in
        (x.subject ≡ user.id)
        × (x.name ≡ (if contains scopes "profile" then user.name else info.name))
        × (x.preferred_username
            ≡ (if contains scopes "profile" then user.username else info.preferred_username))
        × (x.email ≡ (if contains scopes "email" then user.email else info.email))
        × (x.email_verified
            ≡ (if contains scopes "email" then user.email_verified else info.email_verified))
  unfolding fill_userinfo with_profile with_email
  filled user scopes info =
      ground (arith, Bool-cases (contains scopes "profile"), Bool-cases (contains scopes "email"))

  userinfo_of_record-ok :
      (t : Store) (info : UserInfo) (r : AccessRecord) (subject origin : String) (x : UserInfo)
      → userinfo_of_record t info r subject origin ≡ ok x
      → (r.subject ≡ subject)
        × ((origin ≡ "") ⊎ (origin_allowed t r.client_id origin ≡ true))
        × ((user : User) × (lookup text_dec subject t.users ≡ some user)
            × (x ≡ fill_userinfo user r.scopes info))
  unfolding userinfo_of_record set_userinfo
  userinfo_of_record-ok t info r subject origin x e =
      elim (Option-cases (lookup text_dec subject t.users)) [
        | inl f ↦ absurd (ground (arith, e, f))
        | inr (user, f) ↦
            (ground (arith, e, f), ground (arith, e, f), (user, f, ground (arith, e, f)))
      ]

  -- Under a right schedule userinfo is given only for a token that is there, has not expired and is
  -- the subject's, to an origin among those of the token's registered client if one is named. It
  -- has the user's ID, the name and the user name if the token has the scope profile, the email
  -- address and its verification if it has the scope email, and is else left as it was.
  pub set_userinfo_from_token-Informs :
      (info : UserInfo) (subject origin : String) (x : UserInfo)
      → IsScheduled s
      → (set_userinfo_from_token s now info id subject origin).1 ≡ ok x
      → Informs info subject origin x
  unfolding set_userinfo_from_token origin_allowed
  set_userinfo_from_token-Informs info subject origin x h e =
      elim (Option-cases (lookup text_dec id (prune now s).access)) [
        | inl f ↦ absurd (ground (arith, e, f))
        | inr (r, f) ↦
            let live = (pruned_access r h).0 f in
            let parts =
              userinfo_of_record-ok (prune now s) info r subject origin x (ground (arith, e, f)) in
            let fields = filled parts.2.0 r.scopes info in
            record {
              r = r;
              user = parts.2.0;
              found = live.0;
              unexpired = live.1;
              of_subject = parts.0;
              from = elim parts.1 [
                | inl nowhere ↦ inl nowhere
                | inr allowed ↦ inr (
                    origin_allowed-IsOwnOrigin r.client_id origin
                      (ground (arith, allowed, prune-clients now s)))
              ];
              of_user = ground (arith, parts.2.1, prune-users now s);
              subject_ = ap (λ (y : UserInfo). y.subject) parts.2.2 ∙ fields.0;
              name = ap (λ (y : UserInfo). y.name) parts.2.2 ∙ fields.1;
              preferred_username = ap (λ (y : UserInfo). y.preferred_username) parts.2.2 ∙ fields.2;
              email = ap (λ (y : UserInfo). y.email) parts.2.2 ∙ fields.3;
              email_verified = ap (λ (y : UserInfo). y.email_verified) parts.2.2 ∙ fields.4;
            }
      ]
