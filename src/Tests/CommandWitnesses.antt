-- ===== src/Tests/CommandWitnesses.antt =====
-- Provisioning and deprovisioning on the samples.
use django_boundary.Prelude.{◌≡◌, refl, true, false, none, some, [], ◌∷◌, ◌==◌, string_eq}
use django_boundary.Prelude.Dict.{lookup, insert, update}
use django_boundary.Conf.{regions, region_field}
use django_boundary.Runtime.{Tenant, foreign, return, raise}
use django_boundary.Runtime.Lookup.{found, does_not_exist}
use django_boundary.Routing.{route}
use django_boundary.Commands.{Tenants}
use django_boundary.Commands.Provision.{
  Creation, Options, provision, provision-eq-route, tenant_kwargs,
}
use django_boundary.Commands.Deprovision.{Table, Removal, Flags, goes_on, deprovision}
use django_boundary.Commands.Deprovision.Order.{deprovision_previews}
use django_boundary.Tests.InMemory.{Memory, memory}
use django_boundary.Tests.{settings, acme, autocommit, world}

-- A save that leaves its alias open alone.
abbrev creation : Creation Memory
creation = record {
  loads = λ text. some [];
  construct = λ kwargs. return (record { pk = "3"; attributes = kwargs; is_active = some true });
  save = λ alias t w. (return tt, record w { db = record w.db { opened = λ a. a == alias } });
  create = λ kwargs w. (raise (foreign "IntegrityError"), w);
  import_string = λ path. raise (foreign "ImportError");
}

abbrev options : Options
options = record { name = "Acme"; slug = "acme"; region = some "eu"; extra_fields = "{}" }

abbrev made : Tenant
made = record {
  pk = "3";
  attributes = ("name", "Acme") ∷ ("slug", "acme") ∷ ("region", "eu") ∷ [];
  is_active = some true;
}

provision-eq-route_example :
    provision settings creation options (world autocommit)
    ≡ (return "3", record (world autocommit) { db = record autocommit { opened = λ a. a == "eu" } })
unfolding regions region_field lookup string_eq route tenant_kwargs insert update
    django_boundary.Commands.call_hook
provision-eq-route_example =
    provision-eq-route settings creation options [] made (world autocommit) refl refl refl refl refl

abbrev tenants : Tenants
tenants = record { get_pk = λ pk. found acme; get_slug = λ slug. does_not_exist }

abbrev bookings : Table
bookings = record {
  model = record {
    name = "Booking";
    boundary_tenant_path = none;
    boundary_fk_field = some "merchant";
  };
  app_label = "shop";
  db_table = "booking";
  abstract = false;
  alias = "default";
}

abbrev removal : Removal Memory
removal = record {
  registry = [];
  models = bookings ∷ [];
  adopted = [];
  import_string = λ path. raise (foreign "ImportError");
  write = λ line w. (return tt, w);
  count = λ table field t w. (return 2, w);
  count_adopted = λ table t w. (return 0, w);
  answer = "no";
  export = λ path batch_size t w. (raise (foreign "OSError"), w);
  delete = λ table field t w. (return tt, w);
  delete_adopted = λ table t w. (return tt, w);
  delete_tenant = λ t w. (return tt, w);
}

abbrev refused : Flags
refused = record {
  tenant = "1";
  export = some "out";
  batch_size = 1000;
  dry_run = false;
  yes = false;
}

deprovision_previews_example :
    deprovision settings memory tenants removal refused (world autocommit)
    ≡ deprovision settings memory tenants
        (record removal {
          export = λ path batch_size t w. (return tt, w);
          delete = λ table field t w. (raise (foreign "IntegrityError"), w);
          delete_adopted = λ table t w. (return tt, w);
          delete_tenant = λ t w. (raise (foreign "IntegrityError"), w);
        })
        refused
        (world autocommit)
unfolding goes_on string_eq
deprovision_previews_example =
    deprovision_previews settings memory tenants removal refused (world autocommit) refl
      (λ path batch_size t w. (return tt, w))
      (λ table field t w. (raise (foreign "IntegrityError"), w)) (λ table t w. (return tt, w))
      (λ t w. (raise (foreign "IntegrityError"), w))
