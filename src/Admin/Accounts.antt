-- ===== src/Admin/Accounts.antt =====
-- What changes of accounts keep (backend/app/services/admin.py, lines 163 to 189, and the endpoint of
-- backend/app/routers/admin.py).
use crypto_exchange_pro.Prelude.{
  ℕ, Bool, true, false, Option, none, some, List, [], ◌∷◌, ◌≡◌, refl, ap, ◌&&◌, ◌||◌, ◌==◌, ◌⊎◌,
  inl, inr, is_some, if◌then◌else◌, arith, Bool-cases, Option-cases,
}
use crypto_exchange_pro.Auth.{User, UserRole, find_user}
use crypto_exchange_pro.Admin.{AdminError, done, refused, write_user, change, is_block, update_user}

pub find_user-id : (i : ℕ) (us : List User) (u : User) → find_user i us ≡ some u → u.id ≡ i
unfolding find_user
find_user-id i [] u e = cc
find_user-id i (x ∷ us) u e = ground (arith, find_user-id i us u)

module _ (i : ℕ) (f : User → User) (keeps : (u : User) → (f u).id ≡ u.id) where
  find_user-written :
      (us : List User) (u : User)
      → find_user i us ≡ some u
      → find_user i (write_user i f us) ≡ some (f u)
  unfolding find_user write_user
  find_user-written [] u e = absurd (cc)
  find_user-written (x ∷ us) u e = elim (Bool-cases (x.id == i)) [
    | inl t ↦
        let same : x ≡ u = ground (arith, e, t) in
        let key : ((f x).id == i) ≡ true = ground (arith, keeps x, t) in
        rw (t, key) (ap (λ v. some (f v)) same)
    | inr n ↦ rw (n, n) (find_user-written us u (rw n at e))
  ]

  find_user-unwritten :
      (j : ℕ) (us : List User) → j == i ≡ false → find_user j (write_user i f us) ≡ find_user j us
  unfolding find_user write_user
  find_user-unwritten j [] n = refl
  find_user-unwritten j (x ∷ us) n = ground (arith, keeps x, find_user-unwritten j us n)

abbrev guards : User → ℕ → Option UserRole → Option Bool → Bool
guards actor target_id role is_active =
    target_id == actor.id && (is_some role || is_block is_active)

-- Without a user of that key the change is refused with 404; a change of the actor's own role, and a
-- block of the actor's own account, with 400; both leave the users as they were. Any other change
-- answers the changed row, which is found under its key from then on, and every other key finds what
-- it found before.
pub update_user_lem :
    (actor : User) (i j : ℕ) (role : Option UserRole) (is_active : Option Bool) (users : List User)
    → let (r, users') = update_user actor i role is_active users in
      ((find_user i users ≡ none) × (r ≡ refused AdminError.user_not_found) × (users' ≡ users))
      ⊎ ((i == actor.id && (is_some role || is_block is_active) ≡ true)
          × (r ≡ refused AdminError.own_account)
          × (users' ≡ users))
      ⊎ ((target : User) × (find_user i users ≡ some target)
          × (i == actor.id && (is_some role || is_block is_active) ≡ false)
          × (r ≡ done (change role is_active target))
          × (find_user j users'
              ≡ (if j == i then some (change role is_active target) else find_user j users)))
unfolding update_user
update_user_lem actor i j role is_active users = elim (Option-cases (find_user i users)) [
  | inl e ↦ inl (e, rw e refl, rw e refl)
  | inr (target, e) ↦
      let key = find_user-id i users target e in
      elim (Bool-cases (guards actor i role is_active)) [
        | inl t ↦ inr (inl (t, rw (e, key, t) refl, rw (e, key, t) refl))
        | inr t ↦
            inr (inr (target, e, t, rw (e, key, t) refl, rw (e, key, t) (rw key at (row target e))))
      ]
]
  where
    row :
        (target : User)
        → find_user i users ≡ some target
        → find_user j (write_user i (change role is_active) users)
          ≡ (if j == i then some (change role is_active target) else find_user j users)
    row target e = elim (Bool-cases (j == i)) [
      | inl t ↦
          let same : j ≡ i = ground (arith, t) in
          rw (t, same) (find_user-written i (change role is_active) (λ u. refl) users target e)
      | inr n ↦ rw n (find_user-unwritten i (change role is_active) (λ u. refl) j users n)
    ]
