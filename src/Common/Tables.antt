-- ===== src/Common/Tables.antt =====
-- What the services rely on of one database table: Prisma's queries, by the list of the table's
-- rows in the order of their creation.
use mathlib.Core.Path.{◌≡◌, refl}
use mathlib.Core.Bool.{Bool, true, false, not}
use mathlib.Core.Option.{Option, none, some}
use mathlib.Core.List.{List, [], ◌∷◌, ◌++◌, map}
use shield_api.Common.Tests.{if◌then◌else◌}
use shield_api.Common.Lists.{In, filter, find, find_sound, find-none}

pub record Table (Row : Type 0) : Type 1 where
  pub Db : Type 0
  pub rows : Db → List Row
  -- findMany({ where: p, orderBy: { createdOn: 'asc' } })
  pub find_many : (Row → Bool) → Db → List Row
  -- findFirst({ where: p }), findUnique: some row or other, or null
  pub find_first : (Row → Bool) → Db → Option Row
  -- create({ data: r })
  pub create : Row → Db → Db
  -- updateMany({ where: p, data })
  pub update_many : (Row → Bool) → (Row → Row) → Db → Db
  -- deleteMany({ where: p })
  pub delete_many : (Row → Bool) → Db → Db
  pub find_many_lem : (p : Row → Bool) (db : Db) → find_many p db ≡ filter p (rows db)
  pub find_first_sound :
      (p : Row → Bool) (db : Db) (r : Row)
      → find_first p db ≡ some r
      → In r (rows db) × (p r ≡ true)
  pub find_first_none :
      (p : Row → Bool) (db : Db) (r : Row) → find_first p db ≡ none → In r (rows db) → p r ≡ false
  pub rows-create : (r : Row) (db : Db) → rows (create r db) ≡ rows db ++ r ∷ []
  pub rows-update_many :
      (p : Row → Bool) (f : Row → Row) (db : Db)
      → rows (update_many p f db) ≡ map (λ r. if p r then f r else r) (rows db)
  pub rows-delete_many :
      (p : Row → Bool) (db : Db) → rows (delete_many p db) ≡ filter (λ r. not (p r)) (rows db)

-- The table that is the list of its rows.
abbrev pub list_table : (Row : Type 0) → Table Row
list_table Row = record {
  Db = List Row;
  rows = λ db. db;
  find_many = filter;
  find_first = find;
  create = λ r db. db ++ r ∷ [];
  update_many = λ p f db. map (λ r. if p r then f r else r) db;
  delete_many = λ p db. filter (λ r. not (p r)) db;
  find_many_lem = λ p db. refl;
  find_first_sound = λ p db r e. find_sound p db r e;
  find_first_none = λ p db r e m. find-none p db r e m;
  rows-create = λ r db. refl;
  rows-update_many = λ p f db. refl;
  rows-delete_many = λ p db. refl;
}
