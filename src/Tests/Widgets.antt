-- ===== src/Tests/Widgets.antt =====
-- A third-party app, its tables, and the operations of its migrations.
use django_boundary.Migrations.{Table}
use django_boundary.Tests.Tables.{Tables}
use django_boundary.Prelude.{
  String, true, false, Option, none, some, List, [], ◌∷◌, ◌==◌, string_eq, nat_eq, if◌then◌else◌,
}
use django_boundary.Adoption.{AppModel, Apps, Project, Column}
use django_boundary.Migrations.Policies.{EnableRls, TenantPolicy}
use django_boundary.Migrations.Validate.{AdoptTenantApp}
use django_boundary.Tests.{settings}

abbrev pub code_column : Column
code_column = record { column = "code"; unique = true; primary_key = false; related_pk_type = none }

abbrev pub tenant_column : Column
tenant_column = record {
  column = "tenant_id";
  unique = false;
  primary_key = false;
  related_pk_type = some (some "uuid");
}

-- A model of another package, with a unique field
abbrev pub widget : AppModel
widget = record {
  app_label = "thirdparty";
  name = "Widget";
  db_table = "thirdparty_widget";
  abstract = false;
  proxy = false;
  throughs = [];
  pk_type = some "bigint";
  local_fields = code_column ∷ [];
  unique_together = [];
  constraints = [];
  get_field = λ name. if name == "tenant" then some tenant_column else none;
}

abbrev pub merchant : AppModel
merchant = record widget {
  app_label = "shop";
  name = "Merchant";
  db_table = "shop_merchant";
  pk_type = some "uuid";
}

abbrev pub elsewhere : AppModel
elsewhere = record widget { app_label = "elsewhere" }

abbrev pub models_of : String → Option (List AppModel)
models_of label =
    if label == "thirdparty"
    then some (widget ∷ [])
    else if label == "shop"
    then some (merchant ∷ [])
    else none

abbrev pub model_of : String → String → Option AppModel
model_of label name =
    if name == "Merchant"
    then some merchant
    else if label == "elsewhere"
    then some elsewhere
    else if name == "Widget"
    then some widget
    else none

abbrev pub apps : Apps
apps = record { get_models = models_of; get_model = model_of }

abbrev pub project : Project
project = record {
  settings = settings;
  apps = apps;
  is_malformed = λ path. false;
  get_model_path = λ path. if path == "shop.Merchant" then some merchant else none;
  get_class = λ label name. none;
  registry = [];
}

abbrev pub widgets : Table
widgets = record {
  tenant_id = none;
  rows = none ∷ [];
  unique_constraints = ("widget_code_key", "code" ∷ []) ∷ [];
  rls = false;
  forced = false;
  policies = [];
}

abbrev pub tables : Tables
tables t = if t == "thirdparty_widget" then widgets else record widgets { rows = [] }

abbrev pub adoption : AdoptTenantApp
adoption = record { app_label = "thirdparty"; exclude = []; backfill_tenant = some "1" }

abbrev pub enable : EnableRls
enable = record { model_name = "Widget"; app_label = some "thirdparty" }

abbrev pub policy : TenantPolicy
policy = record {
  model_name = "Widget";
  tenant_column = "tenant_id";
  app_label = some "thirdparty";
}
