-- ===== src/Models/Mixins.antt =====
-- models.py: the mixins that make a model belong to a tenant, and the class that has them as bases.
use django_boundary.Prelude.{
  String, ◌<>◌, ◌≡◌, inl, inr, refl, Bool, true, false, not, ◌&&◌, Option, none, some, List, [],
  ◌∷◌, arith, string_eq, nat_eq, Option-cases, ◌≢◌, ◌==◌,
}
use django_boundary.Conf.{
  Settings, setting, is_truthy, tenant_fk_field, tenant_label, resolve_tenant_model_setting,
}
use django_boundary.Runtime.{Result, return, raise, foreign, validation_error, Action, ◌>>=◌, World}
use django_boundary.Models.{
  Model, Registry, is_tenant_model, get_tenant_lookup, has_tenant_column, get_tenant_fk_field, Row,
  save,
}
use django_boundary.Models.Rows.{save_columnless}
use django_boundary.Models.Crossing.{Instance, validate_cross_tenant_fks}

-- The arguments of a factory that it hands to the foreign key; `on_delete` by its name
pub record KeyOptions : Type 0 where
  pub on_delete : String
  pub related_name : String
  pub db_index : Bool
  pub null : Bool

pub record ForeignKey : Type 0 where
  pub to : String
  pub options : KeyOptions
  pub verbose_name : String

-- An abstract class that a model takes as a base: its name, the two attributes, and the foreign key that
-- it has, under the name of its field.
pub record Mixin : Type 0 where
  pub name : String
  pub boundary_fk_field : Option String
  pub boundary_tenant_path : Option String
  pub key : Option (String × ForeignKey)

abbrev pub default_options : KeyOptions
default_options = record {
  on_delete = "CASCADE";
  related_name = "%(app_label)s_%(class)s_set";
  db_index = true;
  null = false;
}

abbrev key_to : Settings → KeyOptions → (verbose_name : String) → Result ForeignKey
key_to cfg options verbose_name = elim (resolve_tenant_model_setting cfg) [
  | none ↦ raise (foreign "ImproperlyConfigured")
  | some model_string ↦
      return (record { to = model_string; options = options; verbose_name = verbose_name })
]

-- The mixin, and the registry with it
unfoldable pub make_tenant_mixin :
    Settings → Option String → KeyOptions → Registry → Result (Mixin × Registry)
make_tenant_mixin cfg fk_field options registry =
    let field = setting fk_field (tenant_fk_field cfg) in
    let name = "TenantMixin[" <> field <> "]" in
    elim (key_to cfg options (tenant_label cfg)) [
      | raise e ↦ raise e
      | return key ↦ return (
        record {
          name = name;
          boundary_fk_field = some field;
          boundary_tenant_path = none;
          key = some (field, key);
        },
        name ∷ registry,
      )
    ]

unfoldable make_tenant_path_mixin : (tenant_path : String) → Registry → Mixin × Registry
make_tenant_path_mixin tenant_path registry =
    let name = "TenantPathMixin[" <> tenant_path <> "]" in
    (
      record {
        name = name;
        boundary_fk_field = none;
        boundary_tenant_path = some tenant_path;
        key = none;
      },
      name ∷ registry,
    )

-- `TenantMixin`, which `TenantModel` is too
unfoldable tenant_mixin : Settings → Result Mixin
tenant_mixin cfg = elim (key_to cfg default_options "tenant") [
  | raise e ↦ raise e
  | return key ↦ return (record {
    name = "TenantMixin";
    boundary_fk_field = some "tenant";
    boundary_tenant_path = none;
    key = some ("tenant", key);
  })
]

-- What the body of a class declares of the two attributes
pub record ClassBody : Type 0 where
  pub boundary_tenant_path : Option String
  pub boundary_fk_field : Option String

-- `class name(*bases): body`: an attribute is that of the body, or of the first base that has it.
abbrev first_of : {A : Type 0} → (Mixin → Option A) → List Mixin → Option A
first_of attribute [] = none
first_of attribute (base ∷ bases) = elim (attribute base) [
  | some a ↦ some a
  | none ↦ first_of attribute bases
]

abbrev declared : Option String → Option String → Option String
declared (some a) inherited = some a
declared none inherited = inherited

unfoldable subclass : (name : String) → ClassBody → List Mixin → Model
subclass name body bases = record {
  name = name;
  boundary_tenant_path =
      declared body.boundary_tenant_path (first_of (λ base. base.boundary_tenant_path) bases);
  boundary_fk_field =
      declared body.boundary_fk_field (first_of (λ base. base.boundary_fk_field) bases);
}

abbrev bare : ClassBody
bare = record { boundary_tenant_path = none; boundary_fk_field = none }

-- `clean` of the mixins: Django's, and then the check of the foreign keys
unfoldable pub clean :
    {Db : Type 0}
    → (super : Action Db Unit) → Registry
    → (tenant_of_row : Model → (fk_id_field pk : String) → Option String) → Instance
    → Action Db Unit
clean super registry tenant_of_row instance = super >>= λ _ w.
    elim (validate_cross_tenant_fks registry tenant_of_row instance) [
      | [] ↦ (return tt, w)
      | _ ↦ (raise validation_error, w)
    ]

-- No base is scoped through a relation.
abbrev have_no_path : List Mixin → Bool
have_no_path [] = true
have_no_path (base ∷ bases) = not (is_truthy base.boundary_tenant_path) && have_no_path bases

first_path :
    (bases : List Mixin)
    → have_no_path bases ≡ true
    → is_truthy (first_of (λ base. base.boundary_tenant_path) bases) ≡ false
first_path [] h = refl
first_path (base ∷ bases) h = elim (Option-cases base.boundary_tenant_path) [
  | inl missing ↦ ground (arith, first_path bases)
  | inr (path, given) ↦ ground arith
]

-- A class whose body declares neither attribute, whose first base is what `make_tenant_mixin` returns, and whose other bases are scoped
-- through no relation, is a tenant model with a tenant column under every registry: the foreign key
-- of the mixin goes to the tenant model of the settings, and its field is the model's field and its
-- lookup.
subclass-make_tenant_mixin :
    (cfg : Settings) (fk_field : Option String) (options : KeyOptions)
    (registry registry' some_registry : Registry) (mixin : Mixin) (name : String)
    (others : List Mixin)
    → make_tenant_mixin cfg fk_field options registry ≡ return (mixin, registry')
    → have_no_path others ≡ true
    → let model = subclass name bare (mixin ∷ others) in
      (field : String) × (key : ForeignKey) × (mixin.key ≡ some (field, key))
      × (resolve_tenant_model_setting cfg ≡ some key.to)
      × (is_tenant_model some_registry model ≡ true)
      × (has_tenant_column model ≡ true)
      × (get_tenant_fk_field model ≡ some field)
      × (get_tenant_lookup model ≡ some field)
unfolding make_tenant_mixin subclass is_tenant_model has_tenant_column get_tenant_fk_field
    get_tenant_lookup
subclass-make_tenant_mixin cfg fk_field options registry registry' some_registry mixin name others
      made pathless =
    let no_path = first_path others pathless in
    elim (Option-cases (resolve_tenant_model_setting cfg)) [
      | inl unset ↦ absurd (ground arith)
      | inr (to, named) ↦
          let field = setting fk_field (tenant_fk_field cfg) in
          let key : ForeignKey = record {
            to = to;
            options = options;
            verbose_name = tenant_label cfg;
          } in
          let fields : mixin.boundary_fk_field ≡ some field = ground arith in
          let path : mixin.boundary_tenant_path ≡ none = ground arith in
          (
            field,
            key,
            ground arith,
            named,
            ground (arith, fields),
            ground (arith, fields, path, no_path),
            ground (arith, fields, path, no_path),
            ground (arith, fields, path, no_path),
          )
    ]

-- A class whose body declares neither attribute, and whose first base is what `make_tenant_path_mixin` returns, with a path that is not empty, is a
-- tenant model without a tenant column and with the path as its lookup: saving it is Django's.
subclass-make_tenant_path_mixin :
    {Db A : Type 0} (tenant_path : String) (registry some_registry : Registry) (name : String)
    (others : List Mixin)
    → tenant_path ≢ ""
    → let mixin = (make_tenant_path_mixin tenant_path registry).0 in
      let model = subclass name bare (mixin ∷ others) in
      (mixin.key ≡ none)
      × (is_tenant_model some_registry model ≡ true)
      × (has_tenant_column model ≡ false)
      × (get_tenant_lookup model ≡ some tenant_path)
      × ((super : Row → Action Db A) (obj : Row) (w : World Db)
          → save model super obj w ≡ super obj w)
unfolding make_tenant_path_mixin subclass is_tenant_model has_tenant_column get_tenant_lookup
subclass-make_tenant_path_mixin tenant_path registry some_registry name others nonempty =
    let truthy : (tenant_path == "") ≡ false = ground arith in
    let columnless : has_tenant_column
          (subclass name bare ((make_tenant_path_mixin tenant_path registry).0 ∷ others))
        ≡ false =
      ground (arith, truthy) in
    (
      refl,
      ground (arith, truthy),
      columnless,
      ground (arith, truthy),
      λ super obj w.
          save_columnless
            (subclass name bare ((make_tenant_path_mixin tenant_path registry).0 ∷ others))
            columnless super obj w,
    )
