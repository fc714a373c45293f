-- ===== src/Routing/Warnings.antt =====
-- The warn-once set of the router.
use django_boundary.Prelude.{
  ◌≤◌, String, ◌≡◌, Option, [], ◌∷◌, arith, string_eq, option_eq, pair_eq, Distinct,
  contains-append, Distinct-snoc, length, length-append,
}
use django_boundary.Runtime.{World}
use django_boundary.Routing.{max_unmatched_region_warnings, warn_unmatched_region_once}

-- The set has no pair twice and at most `_MAX_UNMATCHED_REGION_WARNINGS` of them.
pub record IsWarnSet {Db : Type 0} (w : World Db) : Type 0 where
  pub distinct : Distinct w.warned_unmatched_regions
  pub bounded : length w.warned_unmatched_regions ≤ max_unmatched_region_warnings

module _ {Db : Type 0} (pk : String) (region : Option String) (w : World Db) where
  -- The warn-once set keeps its pairs distinct and stays within its bound.
  pub warn_unmatched_region_once-IsWarnSet :
      IsWarnSet w → IsWarnSet (warn_unmatched_region_once pk region w)
  unfolding warn_unmatched_region_once
  warn_unmatched_region_once-IsWarnSet v =
      let key : String × Option String = (pk, region) in
      ground (
        arith,
        v.distinct,
        v.bounded,
        Distinct-snoc w.warned_unmatched_regions key v.distinct,
        length-append w.warned_unmatched_regions (key ∷ []),
      )

  -- A second warning for the same tenant and region logs nothing and changes nothing.
  warn_unmatched_region_once_idem :
      warn_unmatched_region_once pk region (warn_unmatched_region_once pk region w)
      ≡ warn_unmatched_region_once pk region w
  unfolding warn_unmatched_region_once
  warn_unmatched_region_once_idem =
      let key : String × Option String = (pk, region) in
      ground (arith, contains-append w.warned_unmatched_regions (key ∷ []) key)
