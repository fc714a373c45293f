-- ===== src/Middleware/Chain.antt =====
-- The resolver chain: the first tenant wins, and a resolver that fails is skipped.
use django_boundary.Prelude.{
  ◌≡◌, refl, none, some, List, [], ◌∷◌, ◌++◌, arith, Option, ◌↔◌, ◌∙◌, String,
}
use django_boundary.Runtime.{Tenant, return, World, Result, raise, Action}
use django_boundary.Runtime.Requests.{Request, Resolver}
use django_boundary.Middleware.{resolve_tenant}

-- The tenant that a resolver returned, if it did.
abbrev answered : Result (Option Tenant) → Option Tenant
answered (return t) = t
answered (raise e) = none

module _ {Db : Type 0} (request : Request) where
  resolve_tenant-append :
      (front rest : List (Resolver Db)) (w : World Db)
      → (resolve_tenant request front w).0 ≡ none
      → resolve_tenant request (front ++ rest) w
        ≡ resolve_tenant request rest (resolve_tenant request front w).1
  unfolding resolve_tenant
  resolve_tenant-append [] rest w h = refl
  resolve_tenant-append ((path, resolve) ∷ front) rest w h =
      ground (arith, resolve_tenant-append front rest (resolve request w).1)

  -- A front of the chain in which each resolver, asked in the world that the one before it left,
  -- returns no tenant or raises.
  abbrev NoneAnswers : List (Resolver Db) → World Db → Type 0
  NoneAnswers [] w = Unit
  NoneAnswers ((path, resolve) ∷ front) w =
      (answered (resolve request w).0 ≡ none) × NoneAnswers front (resolve request w).1

  NoneAnswers-resolve_tenant :
      (front : List (Resolver Db)) (w : World Db)
      → NoneAnswers front w
      → (resolve_tenant request front w).0 ≡ none
  unfolding resolve_tenant
  NoneAnswers-resolve_tenant [] w h = refl
  NoneAnswers-resolve_tenant ((path, resolve) ∷ front) w (here, h) =
      ground (arith, NoneAnswers-resolve_tenant front (resolve request w).1 h)

  resolve_tenant-NoneAnswers :
      (front : List (Resolver Db)) (w : World Db)
      → (resolve_tenant request front w).0 ≡ none
      → NoneAnswers front w
  unfolding resolve_tenant
  resolve_tenant-NoneAnswers [] w h = tt
  resolve_tenant-NoneAnswers ((path, resolve) ∷ front) w h =
      ground (arith, resolve_tenant-NoneAnswers front (resolve request w).1)

  -- The chain resolves nothing exactly if each resolver returns no tenant or raises.
  resolve_tenant-eq-none :
      (resolvers : List (Resolver Db)) (w : World Db)
      → ((resolve_tenant request resolvers w).0 ≡ none) ↔ NoneAnswers resolvers w
  resolve_tenant-eq-none resolvers w =
      (resolve_tenant-NoneAnswers resolvers w, NoneAnswers-resolve_tenant resolvers w)

  -- The first resolver that returns a tenant decides: those before it, which returned none or
  -- raised, are passed over, and those after it are not asked.
  resolve_tenant_first :
      (front rest : List (Resolver Db)) (path : String)
      (resolve : Request → Action Db (Option Tenant)) (w : World Db) (t : Tenant)
      → NoneAnswers front w
      → let asked = resolve request (resolve_tenant request front w).1 in
        asked.0 ≡ return (some t)
        → resolve_tenant request (front ++ (path, resolve) ∷ rest) w ≡ (some (t, path), asked.1)
  unfolding resolve_tenant
  resolve_tenant_first front rest path resolve w t skipped h =
      resolve_tenant-append front ((path, resolve) ∷ rest) w
        (NoneAnswers-resolve_tenant front w skipped)
      ∙ ground arith
