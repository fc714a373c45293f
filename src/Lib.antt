-- ===== src/Lib.antt =====
-- django-boundary: row-level multi-tenancy for Django on PostgreSQL.
--
-- The package keeps one active tenant in a context variable, mirrors it in a transaction-local session
-- variable of each PostgreSQL connection that the tenant's queries may use, where the policies of the
-- database read it, and filters the managers of tenant models by it. Requests and tasks enter a tenant;
-- the router sends its queries to the alias of its region.
--
-- The files, and the code they model (paths from the repository's root):
--   Conf                src/boundary/conf.py: the settings and the accessors of `_Settings`
--   Runtime             the process state `World` (context variables, warn-once set, resolver cache,
--                       signals sent, database), exceptions.py, signals.py, tenants, requests, and
--                       `Database`, the interface of the connections
--   Context             src/boundary/context.py. Context/Aliases: `_regional_alias`, `_target_aliases`,
--                       `_aliases_for`. Context/Session: `_is_postgresql`, `_ensure_atomic`,
--                       `_set_db_session`, `_clear_db_session`. Context/Tenant: `set`, `get`, `clear`,
--                       `require`, `using`. Context/Bypass: `admin_bypass`. Context/Scoped:
--                       `tenant_scoped`
--   Routing             src/boundary/routing.py: `_route`, the warn-once set, `require_region`,
--                       `all_regions`, `specific_region`
--   Tasks               src/boundary/celery.py: `_get_tenant_headers`, `_restore_tenant_context`,
--                       `TenantTask`, `tenant_task`
--   Middleware          src/boundary/middleware.py: `_resolve_tenant` and `__call__`
--   Resolvers           src/boundary/resolvers.py. Resolvers/Cache: the cache. Resolvers/Host: the slug
--                       of a host. Resolvers/Queries: the lookups of the resolvers
--   Models              src/boundary/models.py: the managers, `save`, and the four questions about a
--                       model. Models/Mixins: `make_tenant_mixin`, `make_tenant_path_mixin`,
--                       `TenantMixin`, `clean`. Models/Crossing: `validate_cross_tenant_fks`.
--                       Models/Unique: `TenantUniqueConstraint` and its receiver
--   Adoption            src/boundary/adoption.py: refusals, `adopted_models`, `expected_adopted_models`;
--                       get_tenant_model of conf.py. Adoption/Introspection: the queries of
--                       PostgreSQL's catalogue
--   Migrations          src/boundary/migrations_ops.py: the statements and the schema editor.
--                       Migrations/Sql: their texts, `_sql_string_literal`. Migrations/Names: names of
--                       constraints, types, `_historical_unique_column_sets`, and schema_compat.py.
--                       Migrations/Policies: `EnableRLS`, `CreateTenantPolicy`, `DropTenantPolicy`.
--                       `AdoptTenantApp`: its validation in Migrations/Validate, forwards in
--                       Migrations/Adopt, backwards in Migrations/Unadopt.
--                       Migrations/Schema: the effect of a statement on a table, and of the steps
--   Checks              src/boundary/checks.py: the checks of the settings, `_expected_adopted_tables`.
--                       Checks/Catalogue: the probes for row-level security (E006, W003, W009).
--                       Checks/Adopted: E007. Checks/Configuration: `check_boundary_configuration`.
--                       The theorems: Checks/Postures, Checks/Drift, Checks/Silent, Checks/Raises,
--                       Checks/AfterAdoption for E007 after a migration, Checks/Uniqueness,
--                       Checks/WithinTenant and Checks/Backing for the queries on PostgreSQL's
--                       relations
--   Startup             src/boundary/apps.py: the receivers that keep the cache
--   Testing             src/boundary/testing.py: tenants for tests, `provision_rls_test_role`,
--                       `assert_rls_enforced`; its theorems in Testing/Enforced and Testing/Agrees
--   Commands            src/boundary/management/commands: boundary_run.py and the sequential run of
--                       boundary_run_all.py; Commands/RunAll: boundary_run_all.py;
--                       Commands/Provision: boundary_provision.py; Commands/Deprovision:
--                       boundary_deprovision.py, with its export in Commands/Deprovision/Export
--   Prelude             equality, lists, dicts, texts and the clauses of a query that these share
--   Tests               sample settings, tenants and an in-memory database, and the theorems at work
--
-- How they interact. A method that changes state is an `Action`: a function from the world to a
-- result, returned or raised, and the world after, in which what was written before an exception
-- stays written. A `with` block takes its body as an argument. Middleware and Tasks call Context;
-- Models and Routing read the active tenant; the resolvers of Resolvers are values of the chain that
-- Middleware runs, and Startup empties their cache. Checks derives the tables that must be protected
-- from Models and from Adoption, as Migrations does, and Testing asks the same selection of another
-- connection.
--
-- What is not the package's is a parameter. `Database` gives the vendor and the state of each
-- connection, `set_config`, `current_setting` and `transaction.atomic`; `IsPostgres` names the
-- documented behaviour that the theorems rely on (a transaction-local setting is read back inside
-- its transaction, is dropped with its statement outside one, and touches one variable of one
-- connection), and `Answers` says that no call raises. `Editor` gives the schema editor, the router
-- and the catalogue queries. `IsPostgresSchema` says that a statement that returns has changed its own
-- table as documented, and no other, and that the catalogue answers from the tables, with unique
-- constraints in an order of its own. Of the UPDATE of the backfill it says only that, where the count
-- that it returns is that of the table's rows, it has stamped them all: under row-level security it may
-- see fewer and still return. `CountsRows` says that without row-level security it counts every row.
-- The app registries are the record `Apps`; what the checks read, with the catalogue
-- queries of the connection, each of which may raise, is the record `Deployment`. `IndexesFollow`
-- says that PostgreSQL keeps an index beside each unique constraint and that no statement of an
-- adoption makes another; `IsDispatch` that Django calls a connected receiver. The relations of
-- PostgreSQL are the record `PgCatalog`, and `IsCatalog` is what PostgreSQL keeps true of them. The
-- server of a test role, the queries and the terminal of boundary_deprovision, and the file of its
-- export are the records `Server`, `Removal` and `Exporting`; the query of the tenants and the
-- process pool of boundary_run_all are the record `Services`. The ORM's lookups, `uuid.UUID`, the
-- decoding of a JWT, the commands that are run and Django's own `save` and bulk operations are
-- arguments. All loops are structural recursion: no fuel is used. The bounds are the source's: the
-- cache size and its time to live, and 10,000 pairs in the warn-once set. Times are whole ticks of a
-- monotonic clock. Texts are compared as the source does; `lower` knows the letters of ASCII only, as
-- host names have them. Error messages and log lines are left out,
-- except the warning of the warn-once set.
--
-- Not modelled: the count of a table's rows in adoption.py; the fields of `AbstractTenant`; the
-- texts of messages and exceptions; the tests, the smoke consumer and the docs.
pub mod Prelude
pub mod Conf
pub mod Runtime
pub mod Context
pub mod Routing
pub mod Tasks
pub mod Middleware
pub mod Resolvers
pub mod Models
pub mod Adoption
pub mod Migrations
pub mod Checks
pub mod Commands
pub mod Startup
pub mod Testing
pub mod Tests
