-- ===== src/Identity/Tables.antt =====
-- The queries and writes that the services repeat, on the store.
use shipment_tracking_system.Prelude.{
  ℕ, String, Bool, Option, some, [], ◌∷◌, ◌++◌, ◌==◌, str_eq, Action, Void, gets, modify,
}
use shipment_tracking_system.Identity.Entities.{Uuid, User, RefreshToken, Event, Store}
use shipment_tracking_system.Identity.Externals.{Platform}

-- `eventEmitter.emit`
abbrev pub emit : Event → Action Store Void
emit e = modify (λ s. record s { events = s.events ++ e ∷ [] })

module _ (p : Platform) where
  -- `userRepo.findOne({ where: { id } })`
  abbrev pub find_user : Uuid → Action Store (Option User)
  find_user id = gets (λ s. p.orm.find_one User (λ u. u.id == id) s.users)

  -- `userRepo.findOne({ where: { username } })`
  abbrev pub find_username : String → Action Store (Option User)
  find_username name = gets (λ s. p.orm.find_one User (λ u. str_eq u.username name) s.users)

  -- `userRepo.save(user)` of a loaded user
  abbrev pub save_user : User → Action Store Void
  save_user u = modify (λ s. record s { users = p.orm.save User (λ v. v.id) u s.users })

  -- `refreshTokenRepo.update(where, { revokedAt: now })`
  abbrev pub revoke_tokens : (RefreshToken → Bool) → ℕ → Action Store Void
  revoke_tokens which now = modify (λ s. record s {
    refresh_tokens =
        p.orm.update RefreshToken which (λ t. record t { revoked_at = some now }) s.refresh_tokens;
  })
