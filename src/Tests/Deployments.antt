-- ===== src/Tests/Deployments.antt =====
-- Deployments: one where no check says anything, one whose tenant model is missing, and one that has drifted.
use django_boundary.Prelude.{true, false, none, some, [], ◌∷◌, string_eq, nat_eq}
use django_boundary.Runtime.{return}
use django_boundary.Models.{Model}
use django_boundary.Adoption.{AppModel}
use django_boundary.Migrations.{UniqueConstraint}
use django_boundary.Checks.{Imported, imported, by_path}
use django_boundary.Checks.Catalogue.{Catalogue, Deployment}
use django_boundary.Tests.{settings}
use django_boundary.Tests.Widgets.{apps, project, widget}

abbrev importable : Imported
importable = record {
  is_class = true;
  is_tenant_middleware = true;
  is_subdomain_resolver = true;
  is_client_controlled = false;
  is_regional_router = true;
}

abbrev pub catalogue : Catalogue
catalogue = record {
  vendor = "postgresql";
  row_security = λ table. return (some (true, true));
  role = return (some (false, false));
  column_type = λ table column. return (some "uuid");
  policy_names = λ table. return ("boundary_tenant_isolation" ∷ "boundary_admin_bypass" ∷ []);
  unique_constraints = λ table. return [];
  unique_indexes = λ table. return [];
}

abbrev pub booking : Model
booking = record {
  name = "Booking";
  boundary_tenant_path = none;
  boundary_fk_field = some "merchant";
}

abbrev pub bookings : AppModel
bookings = record widget { app_label = "shop"; name = "Booking"; db_table = "shop_booking" }

abbrev pub healthy : Deployment
healthy = record {
  settings = record settings { boundary_tenant_apps = some ("thirdparty" ∷ []) };
  debug = false;
  middleware = "boundary.middleware.TenantMiddleware" ∷ [];
  installed_apps = [];
  database_routers = by_path "boundary.routing.RegionalRouter" ∷ [];
  import_string = λ path. imported importable;
  apps = apps;
  is_malformed = λ path. false;
  get_model_path = project.get_model_path;
  get_class = project.get_class;
  registry = [];
  models = (bookings, booking) ∷ [];
  catalogue = catalogue;
}

abbrev pub unfinished : Deployment
unfinished = record healthy { get_model_path = λ path. none }

-- An upgrade of the other package has recreated_constraint its constraint.
abbrev pub recreated_constraint : UniqueConstraint
recreated_constraint = record {
  name = "widget_code_key";
  columns = "code" ∷ [];
  deferrable = false;
  fk_targeted = false;
}

abbrev pub drifted : Catalogue
drifted = record catalogue { unique_constraints = λ table. return (recreated_constraint ∷ []) }
