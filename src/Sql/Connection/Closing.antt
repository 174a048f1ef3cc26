-- ===== src/Sql/Connection/Closing.antt =====
-- What NewDriver leaves open, and that the driver's names of tables are plain identifiers.
use Prim.Native.Char.{code}
use text.Mathlib.TextLemmas.{nil-append, cons-append}
use tasker.Base.{
  str_eq, ℕ, Bool, true, false, not, Option, none, some, [], ◌∷◌, String, ◌==◌, ==_self,
  if◌then◌else◌, if-rule, ◌≡◌, refl, ◌∙◌, ap, All, text_append,
}
use tasker.Job.{Error}
use tasker.Sql.Statement.{Result, ok, err}
use tasker.Sql.Connection.{
  SqlPool, Database, Config, Driver, Pools, identifier_code, valid_identifier_prefix, table,
  set_pool, close_pool, open_pool, sized, borrow, borrowed_driver, own_driver, by_pool, after_open,
  new_driver, close,
}

abbrev pub Elsewhere : ℕ → Pools → Type 0
Elsewhere h = All (λ p. (p.handle == h) ≡ false)

close_pool-absent : (h : ℕ) (pools : Pools) → Elsewhere h pools → close_pool h pools ≡ pools
close_pool-absent h [] away = refl
close_pool-absent h (p ∷ ps) (here, away) =
    rw here (ap (λ (l : Pools). p ∷ l) (close_pool-absent h ps away))

set_pool-absent :
    (f : SqlPool → SqlPool) (h : ℕ) (pools : Pools) → Elsewhere h pools → set_pool f h pools ≡ pools
set_pool-absent f h [] away = refl
set_pool-absent f h (p ∷ ps) (here, away) =
    rw here (ap (λ (l : Pools). p ∷ l) (set_pool-absent f h ps away))

set_pool-head :
    (f : SqlPool → SqlPool) (h : ℕ) (p : SqlPool) (pools : Pools)
    → (p.handle == h) ≡ true
    → Elsewhere h pools
    → set_pool f h (p ∷ pools) ≡ f p ∷ pools
set_pool-head f h p pools here away =
    rw here (ap (λ (l : Pools). f p ∷ l) (set_pool-absent f h pools away))

close_pool-head :
    (h : ℕ) (p : SqlPool) (pools : Pools)
    → (p.handle == h) ≡ true
    → Elsewhere h pools
    → close_pool h (p ∷ pools) ≡ pools
close_pool-head h p pools here away = rw here (close_pool-absent h pools away)

-- Three settings of the first pool.
set_pool-thrice :
    (f g k : SqlPool → SqlPool) (h : ℕ) (p : SqlPool) (pools : Pools)
    → (p.handle == h) ≡ true
    → ((f p).handle == h) ≡ true
    → ((g (f p)).handle == h) ≡ true
    → Elsewhere h pools
    → set_pool k h (set_pool g h (set_pool f h (p ∷ pools))) ≡ k (g (f p)) ∷ pools
set_pool-thrice f g k h p pools here there last away =
    ap (λ (l : Pools). set_pool k h (set_pool g h l)) (set_pool-head f h p pools here away)
    ∙ (ap (set_pool k h) (set_pool-head g h (f p) pools there away)
        ∙ set_pool-head k h (g (f p)) pools last away)

abbrev pub pool_of : Config → ℕ → SqlPool
pool_of cfg h = record {
  handle = h;
  max_open = some cfg.max_open_conns;
  max_idle = some cfg.max_idle_conns;
  lifetime = some cfg.conn_max_lifetime;
}

sized-eq :
    (sql : Database) (cfg : Config) (h : ℕ) (pools : Pools)
    → Elsewhere h pools
    → sized sql cfg h (open_pool h pools) ≡ pool_of cfg h ∷ pools
sized-eq sql cfg h pools away =
    set_pool-thrice (λ p. record p { max_open = some cfg.max_open_conns })
      (λ p. record p { max_idle = some cfg.max_idle_conns })
      (λ p. record p { lifetime = some cfg.conn_max_lifetime }) h _ pools (==_self h) (==_self h)
      (==_self h) away

-- The new pool goes, and nothing else.
close-sized :
    (sql : Database) (cfg : Config) (h : ℕ) (pools : Pools)
    → Elsewhere h pools
    → close_pool h (sized sql cfg h (open_pool h pools)) ≡ pools
close-sized sql cfg h pools away =
    ap (close_pool h) (sized-eq sql cfg h pools away)
    ∙ close_pool-head h (pool_of cfg h) pools (==_self h) away

kept :
    (bad : Bool) {x y : Bool}
    → (if bad then false else x) ≡ true
    → (x ≡ true → y ≡ true)
    → (if bad then false else y) ≡ true
kept true h k = h
kept false h k = k h

valid-append :
    (s t : String)
    → valid_identifier_prefix s ≡ true
    → valid_identifier_prefix t ≡ true
    → valid_identifier_prefix (text_append s t) ≡ true
unfolding valid_identifier_prefix
valid-append String.[] t h k = rw (nil-append t) k
valid-append (String.◌∷◌ c s) t h k =
    rw (cons-append c s t) (kept (not (identifier_code (code c))) h (λ e. valid-append s t e k))

-- The pools once a driver is there: those before where its pool was given, else one more.
abbrev pub pools_with : Config → Driver → Pools → Pools
pools_with cfg d pools = if d.borrowed then pools else pool_of cfg d.db ∷ pools

pub Opened : Database → Config → Pools → String → Result Driver × Pools → Type 0
Opened sql cfg pools name (err e, after) = after ≡ pools
Opened sql cfg pools name (ok d, after) =
    (after ≡ pools_with cfg d pools)
    × ((close sql d after).1 ≡ pools)
    × (valid_identifier_prefix (table d name) ≡ true)

holds_of_negation : (b : Bool) → not b ≡ false → b ≡ true
holds_of_negation true h = refl
holds_of_negation false h = cc

module _ (sql : Database) (cfg : Config) (pools : Pools) (name : String)
    (plain : valid_identifier_prefix name ≡ true) where
  named :
      valid_identifier_prefix cfg.table_prefix ≡ true
      → valid_identifier_prefix (text_append cfg.table_prefix name) ≡ true
  named h = valid-append cfg.table_prefix name h plain

  borrowed_driver-Opened :
      (h : ℕ) (answer : Option Error)
      → valid_identifier_prefix cfg.table_prefix ≡ true
      → Opened sql cfg pools name (borrowed_driver sql cfg h pools answer)
  unfolding Opened close table
  borrowed_driver-Opened h (some e) prefix = refl
  borrowed_driver-Opened h none prefix = (refl, refl, named prefix)

  own_driver-Opened :
      (h : ℕ) (answer : Option Error)
      → Elsewhere h pools
      → valid_identifier_prefix cfg.table_prefix ≡ true
      → Opened sql cfg pools name
          (own_driver sql cfg h (sized sql cfg h (open_pool h pools)) answer)
  unfolding Opened close table
  own_driver-Opened h (some e) away prefix = close-sized sql cfg h pools away
  own_driver-Opened h none away prefix =
      (sized-eq sql cfg h pools away, close-sized sql cfg h pools away, named prefix)

  borrow-Opened :
      (h : ℕ)
      → valid_identifier_prefix cfg.table_prefix ≡ true
      → Opened sql cfg pools name (borrow sql cfg h pools)
  unfolding borrow Opened
  borrow-Opened h prefix =
      if-rule (Opened sql cfg pools name) (str_eq cfg.dialect "") _ _ (λ _. refl)
        (λ _. borrowed_driver-Opened h (sql.ping h) prefix)

  -- A pool that sql.Open gives is not one of those that are open.
  abbrev pub OpensNew : Result ℕ → Type 0
  OpensNew (ok h) = Elsewhere h pools
  OpensNew (err e) = Unit

  after_open-Opened :
      (answer : Result ℕ)
      → OpensNew answer
      → valid_identifier_prefix cfg.table_prefix ≡ true
      → Opened sql cfg pools name (after_open sql cfg answer pools)
  unfolding after_open Opened
  after_open-Opened (err e) away prefix = refl
  after_open-Opened (ok h) away prefix = own_driver-Opened h (sql.ping h) away prefix

  by_pool-Opened :
      (given : Option ℕ)
      → OpensNew (sql.open_db cfg.driver_name cfg.dsn)
      → valid_identifier_prefix cfg.table_prefix ≡ true
      → Opened sql cfg pools name (by_pool sql cfg pools given)
  by_pool-Opened (some h) new prefix = borrow-Opened h prefix
  by_pool-Opened none new prefix =
      after_open-Opened (sql.open_db cfg.driver_name cfg.dsn) new prefix

  -- NewDriver fails and leaves the open pools as they were, also where it had opened one; or it
  -- gives a driver, with one open pool more, of the configured sizes, unless it was given one.
  -- Closing that driver leaves the open pools as they were before, so one that was given stays
  -- open; and the name of a table, as the driver puts it into its statements, holds only letters,
  -- digits and underscores, as the name without the prefix does. sql.Open gives a new pool.
  pub new_driver-close :
      OpensNew (sql.open_db cfg.driver_name cfg.dsn)
      → Opened sql cfg pools name (new_driver sql cfg pools)
  unfolding new_driver Opened
  new_driver-close new =
      if-rule (Opened sql cfg pools name) (not (valid_identifier_prefix cfg.table_prefix)) _ _
        (λ _. refl) (λ good. by_pool-Opened cfg.db new (holds_of_negation _ good))
