-- ===== src/Tests/ModelWitnesses.antt =====
-- The managers and the cross-tenant check on the samples.
use django_boundary.Models.{
  Model, filtered_by, get_queryset, get_tenant_fk_field, get_tenant_lookup,
}
use django_boundary.Prelude.Dict.{lookup, has_key}
use django_boundary.Prelude.{String, ◌≡◌, ◌↔◌, refl, true, Option, none, some, [], ◌∷◌, string_eq}
use django_boundary.Conf.{wrap_atomic, set_db_session_var, regions, region_field}
use django_boundary.Runtime.{return}
use django_boundary.Context.Aliases.{aliases_for}
use django_boundary.Context.Session.{is_postgresql}
use django_boundary.Context.Tenant.{using_tenant}
use django_boundary.Models.Fields.{using_tenant-get_queryset}
use django_boundary.Models.Crossing.{
  AnyCrosses, Instance, validate_cross_tenant_fks, has_key-validate_cross_tenant_fks,
}
use django_boundary.Tests.InMemory.{memory, memory-IsPostgres, memory-Answers}
use django_boundary.Tests.{settings, acme, autocommit, world}

abbrev booking : Model
booking = record {
  name = "Booking";
  boundary_tenant_path = none;
  boundary_fk_field = some "merchant";
}

using_tenant-get_queryset_example :
    (using_tenant settings memory
      (some acme)
      "default"
      (get_queryset settings booking)
      (world autocommit)).0
    ≡ return (filtered_by "merchant" acme)
unfolding wrap_atomic set_db_session_var is_postgresql aliases_for regions region_field lookup
    string_eq get_tenant_lookup
using_tenant-get_queryset_example =
    using_tenant-get_queryset settings memory memory-IsPostgres memory-Answers "eu" refl refl refl
      acme "default" booking "merchant" (world autocommit) refl refl (λ h. cc)

-- A booking of tenant 1 that points at a booking of tenant 2.
abbrev crossed : Instance
crossed = record {
  model = booking;
  fields =
      record {
        name = "merchant";
        attname = "merchant_id";
        is_foreign_key = true;
        related_model = none;
      }
      ∷ record {
        name = "parent";
        attname = "parent_id";
        is_foreign_key = true;
        related_model = some booking;
      }
      ∷ [];
  values = ("merchant_id", "1") ∷ ("parent_id", "9") ∷ [];
}

abbrev tenant_of_row : Model → String → String → Option String
tenant_of_row model field pk = some "2"

has_key-validate_cross_tenant_fks_example :
    (has_key "parent" (validate_cross_tenant_fks [] tenant_of_row crossed) ≡ true)
    ↔ AnyCrosses [] tenant_of_row crossed "merchant" "1" "parent" crossed.fields
unfolding get_tenant_fk_field lookup string_eq
has_key-validate_cross_tenant_fks_example =
    has_key-validate_cross_tenant_fks [] tenant_of_row crossed "merchant" "1" "parent" refl refl
