-- ===== src/Runtime/Requests.antt =====
-- What the resolvers read of a Django request, what the middleware sets on it, and resolvers.
use django_boundary.Prelude.{String, Option}
use django_boundary.Prelude.Dict.{Dict}
use django_boundary.Runtime.{Tenant, Token, Result, Action}

pub record Request : Type 0 where
  -- `request.get_host()`, which may raise
  pub host : Result String
  pub meta : Dict String
  pub session : Option (Dict String)
  -- attributes that hold a tenant
  pub attributes : Dict Tenant
  pub boundary_token : Option (Token Tenant)

-- A resolver of the chain: its dotted path, and what importing it, making it and asking it does.
abbrev pub Resolver : Type 0 → Type 0
Resolver Db = String × (Request → Action Db (Option Tenant))
