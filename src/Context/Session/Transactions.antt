-- ===== src/Context/Session/Transactions.antt =====
-- `_ensure_atomic` around a body: what it keeps, and what the body may rely on.
use django_boundary.Prelude.{
  String, ◌≡◌, refl, ◌∙◌, sym, ◌⊎◌, inl, inr, true, false, List, [], ◌∷◌, arith, string_eq,
  contains,
}
use django_boundary.Conf.{Settings, wrap_atomic}
use django_boundary.Runtime.{return, World, Action}
use django_boundary.Runtime.Database.{Database, IsPostgres, Answers}
use django_boundary.Context.Session.{is_postgresql, ensure_atomic, ensure_atomic_all}

contains-head : (a : String) (xs : List String) → contains (a ∷ xs) a ≡ true
contains-head a xs = ground arith

-- `f` does not look at the databases.
abbrev IsDbFree : {B : Type 0} (D : Database) → (World D.State → B) → Type 0
IsDbFree D f = (w : World D.State) (s : D.State) → f (record w { db = s }) ≡ f w

module _ (cfg : Settings) (D : Database) {A B : Type 0} (f : World D.State → B)
    (free : IsDbFree D f) where
  -- Apart from the databases, the blocks leave the world as the body leaves it.
  pub ensure_atomic-keeps :
      (using : String) (body : Action D.State A) (w : World D.State)
      → ((s : D.State) → f (body (record w { db = s })).1 ≡ f w)
      → f (ensure_atomic cfg D using body w).1 ≡ f w
  unfolding ensure_atomic
  ensure_atomic-keeps using body w h =
      let s = (D.enter_atomic using w.db).1 in
      let (result, w') = body (record w { db = s }) in
      ground (
        arith,
        h w.db,
        h s,
        free w s,
        free w' (D.exit_atomic using true w'.db).1,
        free w' (D.exit_atomic using false w'.db).1,
      )

  pub ensure_atomic_all-keeps :
      (aliases : List String) (body : Action D.State A) (w : World D.State)
      → ((s : D.State) → f (body (record w { db = s })).1 ≡ f w)
      → f (ensure_atomic_all cfg D aliases body w).1 ≡ f w
  unfolding ensure_atomic_all
  ensure_atomic_all-keeps [] body w h = h w.db
  ensure_atomic_all-keeps (alias ∷ aliases) body w h =
      ensure_atomic-keeps alias (ensure_atomic_all cfg D aliases body) w λ s.
        ensure_atomic_all-keeps aliases body (record w { db = s }) (λ s'. h s' ∙ sym (free w s))
        ∙ free w s

-- In a transaction on every alias the blocks open none.
module _ (cfg : Settings) (D : Database) {A : Type 0} where
  pub ensure_atomic_all-ambient :
      (aliases : List String) (body : Action D.State A) (w : World D.State)
      → ((b : String) → contains aliases b ≡ true → D.in_atomic_block w.db b ≡ true)
      → ensure_atomic_all cfg D aliases body w ≡ body w
  unfolding ensure_atomic_all ensure_atomic
  ensure_atomic_all-ambient [] body w h = refl
  ensure_atomic_all-ambient (alias ∷ aliases) body w h =
      let rest = ensure_atomic_all-ambient aliases body w (λ b m. h b (ground arith)) in
      ground (arith, h alias (contains-head alias aliases), rest)

-- A body that returns wherever it runs returns from the block.
ensure_atomic-returns :
    (cfg : Settings) (D : Database) (up : Answers D) {A : Type 0} (using : String)
    (body : Action D.State A) (w : World D.State) (x : A)
    → ((s : D.State) → (body (record w { db = s })).0 ≡ return x)
    → (ensure_atomic cfg D using body w).0 ≡ return x
unfolding ensure_atomic
ensure_atomic-returns cfg D up using body w x h =
    let s = (D.enter_atomic using w.db).1 in
    ground (
      arith,
      h w.db,
      h s,
      up.enters using w.db,
      up.exits using true (body (record w { db = s })).1.db,
    )

module _ (cfg : Settings) (D : Database) (P : IsPostgres D) (up : Answers D)
    (wraps : wrap_atomic cfg ≡ true) (a : String) (postgres : is_postgresql cfg D a ≡ true)
    {A : Type 0} where
  -- A body that returns once it runs in a transaction on `a` returns from the block.
  pub ensure_atomic_self-returns :
      (body : Action D.State A) (w : World D.State) (x : A)
      → ((s : D.State) → D.in_atomic_block s a ≡ true → (body (record w { db = s })).0 ≡ return x)
      → (ensure_atomic cfg D a body w).0 ≡ return x
  unfolding ensure_atomic is_postgresql
  ensure_atomic_self-returns body w x h =
      let s = (D.enter_atomic a w.db).1 in
      ground (
        arith,
        h w.db,
        h s,
        up.enters a w.db,
        up.exits a true (body (record w { db = s })).1.db,
        P.enter_atomic_begins a w.db,
      )

  ensure_atomic_other-returns :
      (using : String) (body : Action D.State A) (w : World D.State) (x : A)
      → D.in_atomic_block w.db a ≡ true
      → ((s : D.State) → D.in_atomic_block s a ≡ true → (body (record w { db = s })).0 ≡ return x)
      → (ensure_atomic cfg D using body w).0 ≡ return x
  unfolding ensure_atomic
  ensure_atomic_other-returns using body w x in_block h =
      let s = (D.enter_atomic using w.db).1 in
      ground (
        arith,
        h w.db in_block,
        h s,
        up.enters using w.db,
        up.exits using true (body (record w { db = s })).1.db,
        P.enter_atomic_keeps using w.db a in_block,
      )

  -- So does one that stands in a block for each alias, if `a` is among them or in a transaction.
  pub ensure_atomic_all-returns :
      (aliases : List String) (body : Action D.State A) (w : World D.State) (x : A)
      → (contains aliases a ≡ true) ⊎ (D.in_atomic_block w.db a ≡ true)
      → ((s : D.State) → D.in_atomic_block s a ≡ true → (body (record w { db = s })).0 ≡ return x)
      → (ensure_atomic_all cfg D aliases body w).0 ≡ return x
  unfolding ensure_atomic_all
  ensure_atomic_all-returns [] body w x (inl e) h = cc
  ensure_atomic_all-returns [] body w x (inr e) h = h w.db e
  ensure_atomic_all-returns (alias ∷ aliases) body w x (inr e) h =
      ensure_atomic_other-returns alias (ensure_atomic_all cfg D aliases body) w x e
        (λ s e'. ensure_atomic_all-returns aliases body (record w { db = s }) x (inr e') h)
  ensure_atomic_all-returns (alias ∷ aliases) body w x (inl e) h = elim (string_eq.dec a alias) [
    | yes p ↦ rw (← p) (
        ensure_atomic_self-returns (ensure_atomic_all cfg D aliases body) w x
          (λ s e'. ensure_atomic_all-returns aliases body (record w { db = s }) x (inr e') h))
    | no n ↦
        ensure_atomic-returns cfg D up alias (ensure_atomic_all cfg D aliases body) w x
          λ s. ensure_atomic_all-returns aliases body (record w { db = s }) x (inl (ground arith)) h
  ]
