-- ===== src/Resolvers/Queries.antt =====
-- resolvers.py: what the resolvers ask of the database and of other libraries.
use django_boundary.Prelude.{String, ◌<>◌, Option, none, some, List, [], ◌∷◌}
use django_boundary.Prelude.Dict.{Dict}
use django_boundary.Prelude.Text.{upper, replace}
use django_boundary.Conf.{Settings, subdomain_field}
use django_boundary.Runtime.{Tenant, value_error, type_error}
use django_boundary.Runtime.Lookup.{Lookup, found, does_not_exist, failed}

-- The queries and libraries that the resolvers call: `TenantModel.objects.get(pk=…)` and
-- `.get(**{field: value})`, `uuid.UUID` as the text of a primary key, and the decoding of a padded
-- base64 text to a JSON value.
pub data Payload : Type 0 where
  object : Dict String → Payload
  -- any other JSON value, which has no `get`
  not_an_object : Payload

pub record Services : Type 0 where
  pub get_pk : String → Lookup Tenant
  pub get_field : (field value : String) → Lookup Tenant
  pub parse_uuid : String → Option String
  pub decode_payload : String → Option Payload

module _ (cfg : Settings) (services : Services) where
  -- The slug lookup of `HeaderResolver`, where only `DoesNotExist` is caught.
  abbrev header_slug : String → Lookup Tenant
  header_slug value = services.get_field (subdomain_field cfg) value

  -- The pk lookup, which `DoesNotExist`, `ValueError` and `TypeError` send on to the slug.
  abbrev header_pk : String → Lookup Tenant
  header_pk value = elim (services.get_pk value) [
    | found tenant ↦ found tenant
    | does_not_exist ↦ header_slug value
    | failed value_error ↦ header_slug value
    | failed type_error ↦ header_slug value
    | failed e ↦ failed e
  ]

  -- The UUID first: a text that is none, no such tenant or a `ValueError` go on to the pk.
  unfoldable pub header_query : String → Lookup Tenant
  header_query value = elim (services.parse_uuid value) [
    | none ↦ header_pk value
    | some uuid ↦ elim (services.get_pk uuid) [
      | found tenant ↦ found tenant
      | does_not_exist ↦ header_pk value
      | failed value_error ↦ header_pk value
      | failed e ↦ failed e
    ]
  ]

-- The pk lookup of the other two, where `DoesNotExist` and `ValueError` are caught.
abbrev pub pk_query : Services → String → Lookup Tenant
pk_query services id = elim (services.get_pk id) [
  | failed value_error ↦ does_not_exist
  | other ↦ other
]

-- The key of a header in `request.META`.
unfoldable pub meta_key : String → String
meta_key name = "HTTP_" <> replace b'-' "_" (upper name)

-- The second of exactly three segments.
abbrev pub payload_segment : List String → Option String
payload_segment (header ∷ payload ∷ signature ∷ []) = some payload
payload_segment _ = none
