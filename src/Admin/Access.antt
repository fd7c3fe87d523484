-- ===== src/Admin/Access.antt =====
-- Who passes the check of administrators, and what their changes leave (backend/app/services/admin.py and
-- backend/app/routers/admin.py).
use crypto_exchange_pro.Prelude.{
  ℕ, String, Bool, true, false, Option, none, some, List, [], ◌∷◌, ◌≡◌, refl, sym, ap, subst, ◌∙◌,
  ◌||◌, ◌==◌, inl, inr, is_some, if◌then◌else◌, arith, Bool-cases, Option-cases,
}
use crypto_exchange_pro.Redis.{Commands}
use crypto_exchange_pro.Auth.{
  User, UserRole, role_eq, Payload, Crypto, AuthSettings, AuthError, Answer, yes, no, World, access,
  find_user, decode_token, is_token_blacklisted,
}
use crypto_exchange_pro.Auth.Tokens.{
  active_user, user_of, get_current_user, with_role, require_roles,
}
use crypto_exchange_pro.Admin.{Outcome, done, refused, change, is_block, update_user}
use crypto_exchange_pro.Routers.Admin.{
  require_admin, commit_update, update_as, update_user_endpoint,
}
use crypto_exchange_pro.Admin.Accounts.{find_user-id, update_user_lem}

pub record UpdateRequest : Type 0 where
  pub credentials : Option String
  pub user_id : ℕ
  pub role : Option UserRole
  pub is_active : Option Bool

-- Somebody is left who can administer.
abbrev pub HasAdmin : List User → Type 0
HasAdmin users =
    (i : ℕ) × (u : User) × (find_user i users ≡ some u)
    × (u.role ≡ UserRole.admin)
    × (u.is_active ≡ true)

change-kept :
    (role : Option UserRole) (is_active : Option Bool) (u : User)
    → is_some role || is_block is_active ≡ false
    → u.is_active ≡ true
    → ((change role is_active u).role ≡ u.role) × ((change role is_active u).is_active ≡ true)
change-kept none none u f a = (refl, a)
change-kept none (some true) u f a = (refl, refl)
change-kept none (some false) u f a = absurd (cc)
change-kept (some r) b u f a = absurd (cc)

-- An administrator's change keeps that administrator.
update_user-HasAdmin :
    (actor : User) (i : ℕ) (role : Option UserRole) (is_active : Option Bool) (users : List User)
    → find_user actor.id users ≡ some actor
    → actor.role ≡ UserRole.admin
    → actor.is_active ≡ true
    → HasAdmin (update_user actor i role is_active users).1
update_user-HasAdmin actor i role is_active users known admin active =
    let users' = (update_user actor i role is_active users).1 in
    let kept : users' ≡ users → HasAdmin users' =
      λ same. (actor.id, actor, ap (find_user actor.id) same ∙ known, admin, active) in
    elim (update_user_lem actor i actor.id role is_active users) [
      | inl (e, r, same) ↦ kept same
      | inr (inl (t, r, same)) ↦ kept same
      | inr (inr (target, e, t, r, row)) ↦ elim (Bool-cases (actor.id == i)) [
        | inr n ↦ (actor.id, actor, rw n at row ∙ known, admin, active)
        | inl h ↦
            let key : actor.id ≡ i = ground (arith, h) in
            let own : actor ≡ target =
              ground (arith, sym known ∙ ap (λ j. find_user j users) key ∙ e) in
            let free : is_some role || is_block is_active ≡ false = ground (arith, t, key) in
            let (same_role, still_active) =
              change-kept role is_active target free
                (ap (λ (v : User). v.is_active) (sym own) ∙ active) in
            (
              actor.id,
              change role is_active target,
              rw h at row,
              same_role ∙ ap (λ (v : User). v.role) (sym own) ∙ admin,
              still_active,
            )
      ]
    ]

role_eq-admin : (r : UserRole) → role_eq r UserRole.admin ≡ true → r ≡ UserRole.admin
role_eq-admin UserRole.user e = cc
role_eq-admin UserRole.trader e = cc
role_eq-admin UserRole.manager e = cc
role_eq-admin UserRole.admin e = refl

-- Whoever passes the check is an active administrator in the table.
abbrev IsAdminOf : List User → User → Type 0
IsAdminOf users u =
    (find_user u.id users ≡ some u) × (u.role ≡ UserRole.admin) × (u.is_active ≡ true)

abbrev IsActiveOf : List User → Answer User → Type 0
IsActiveOf users (no e) = Unit
IsActiveOf users (yes u) = (find_user u.id users ≡ some u) × (u.is_active ≡ true)

module _ {S : Type 0} (redis : Commands S) (crypto : Crypto) (settings : AuthSettings) where
  active_user-IsActiveOf :
      (i : ℕ) (users : List User)
      → IsActiveOf users (active_user redis crypto settings (find_user i users))
  active_user-IsActiveOf i users = elim (Option-cases (find_user i users)) [
    | inl e ↦ rw e tt
    | inr (u, e) ↦
        let key = find_user-id i users u e in
        rw e (go u (ap (λ j. find_user j users) key ∙ e) u.is_active refl)
  ]
    where
      go :
          (u : User)
          → find_user u.id users ≡ some u
          → (b : Bool) → u.is_active ≡ b
          → IsActiveOf users (if b then yes u else no AuthError.blocked)
      go u known true a = (known, a)
      go u known false a = tt

  user_of-IsActiveOf :
      (p : Option Payload) (w : World S) → IsActiveOf w.users (user_of redis crypto settings p w)
  user_of-IsActiveOf none w = tt
  user_of-IsActiveOf (some p) w =
      elim (Bool-cases (is_token_blacklisted redis crypto settings p.jti w.client)) [
        | inl b ↦ rw b tt
        | inr b ↦ rw b (active_user-IsActiveOf p.sub w.users)
      ]

  get_current_user-IsActiveOf :
      (credentials : Option String) (w : World S)
      → IsActiveOf w.users (get_current_user redis crypto settings credentials w)
  unfolding get_current_user
  get_current_user-IsActiveOf none w = tt
  get_current_user-IsActiveOf (some token) w =
      user_of-IsActiveOf (decode_token redis crypto settings token access) w

  with_role-IsAdminOf :
      (users : List User) (a : Answer User) (actor : User)
      → IsActiveOf users a
      → with_role redis crypto settings (UserRole.admin ∷ []) a ≡ yes actor
      → IsAdminOf users actor
  with_role-IsAdminOf users (no e) actor known h = absurd (cc)
  with_role-IsAdminOf users (yes u) actor known h =
      elim (Bool-cases (role_eq u.role UserRole.admin)) [
        | inl t ↦
            let same : u ≡ actor = ground (arith, rw t at h) in
            subst (IsAdminOf users) same (known.0, role_eq-admin u.role t, known.1)
        | inr n ↦ absurd (cc (rw n at h))
      ]

  require_admin-IsAdminOf :
      (credentials : Option String) (w : World S) (actor : User)
      → require_admin redis crypto settings credentials w ≡ yes actor
      → IsAdminOf w.users actor
  unfolding require_roles
  require_admin-IsAdminOf credentials w actor h =
      with_role-IsAdminOf w.users _ actor (get_current_user-IsActiveOf credentials w) h

  module _ (hash : String → ℕ → ℕ) where
    commit_update-users :
        (r : Outcome User × List User) (w : World S)
        → HasAdmin w.users
        → HasAdmin r.1
        → HasAdmin (commit_update redis crypto settings hash r w).1.users
    commit_update-users (done u, users) w before after = after
    commit_update-users (refused e, users) w before after = before

    update_as-HasAdmin :
        (a : Answer User) (i : ℕ) (role : Option UserRole) (is_active : Option Bool) (w : World S)
        → ((actor : User) → a ≡ yes actor → IsAdminOf w.users actor)
        → HasAdmin w.users
        → HasAdmin (update_as redis crypto settings hash a i role is_active w).1.users
    update_as-HasAdmin (no e) i role is_active w actors before = before
    update_as-HasAdmin (yes actor) i role is_active w actors before =
        let (known, admin, active) = actors actor refl in
        commit_update-users _ w before
          (update_user-HasAdmin actor i role is_active w.users known admin active)

    -- Requests to change users, one after another.
    unfoldable pub serve_updates : List UpdateRequest → World S → World S
    serve_updates [] w = w
    serve_updates (r ∷ rs) w =
        serve_updates rs
          (update_user_endpoint redis crypto settings hash r.credentials r.user_id r.role
            r.is_active w).1

    -- While there is an active administrator, no sequence of requests to change users, from whomever they
    -- come, leaves the exchange without one.
    pub serve_updates-HasAdmin :
        (rs : List UpdateRequest) (w : World S)
        → HasAdmin w.users
        → HasAdmin (serve_updates rs w).users
    unfolding serve_updates update_user_endpoint
    serve_updates-HasAdmin [] w before = before
    serve_updates-HasAdmin (r ∷ rs) w before = serve_updates-HasAdmin rs _ (
        update_as-HasAdmin (require_admin redis crypto settings r.credentials w) r.user_id r.role
          r.is_active w (require_admin-IsAdminOf r.credentials w) before)
